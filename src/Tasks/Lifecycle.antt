-- ===== src/Tasks/Lifecycle.antt =====
-- tasks/lifecycle.py: the transitions that a lease holder, or an operator, makes.
pub mod Moves
pub mod Heartbeat
pub mod Complete
pub mod Cancel
pub mod Retry
use collective_capability_ru.Prelude.{
  ℕ, String, Bool, true, false, ◌&&◌, Option, none, some, List, [], ◌∷◌, str_eq, elem,
  if◌then◌else◌,
}
use collective_capability_ru.Prelude.Int.{ℤ, pos, ◌+ℤ◌}
use collective_capability_ru.Prelude.Map.{FilePath}
use collective_capability_ru.Prelude.Text.{◌<>◌}
use collective_capability_ru.Prelude.Sorted.{sorted_set}
use collective_capability_ru.Result.{Result, ok, err, value_error, ◌>>=◌ as bind_result}
use collective_capability_ru.Json.{Dict, null, int, str, obj, arr, dict, strings}
use collective_capability_ru.Json.Fields.{get, set, update}
use collective_capability_ru.Json.Python.{is_str, is_true, as_dict, get_default, to_int}
use collective_capability_ru.Env.{Env}
use collective_capability_ru.Exec.{
  unlink_old, Exec, pure, lift, require, now_iso, write_file, transaction, ◌>>=◌, ◌>>◌,
}
use collective_capability_ru.Ids.{validate_identifier}
use collective_capability_ru.Time.{Ttl, parse_ttl_minutes}
use collective_capability_ru.Residuals.{residual_spec, build_residual}
use collective_capability_ru.Tasks.{
  task_path, lease_of, with_lease, extensions_of, with_extension, require_lease, upsert_lease,
  record_outbox,
}
use collective_capability_ru.Tasks.Queue.{load_task}

-- What the operations return: `status_after`, the task, and `idempotent` of `complete_task`.
pub record Reply : Type 0 where
  pub idempotent : Bool
  pub status_after : String
  pub task : Dict

abbrev renew : Option ℕ → Dict → Dict
renew none lease = lease
renew (some ttl) lease = set "ttl_minutes" (int (pos ttl)) lease

pub parse_optional_ttl : Option Ttl → Result (Option ℕ)
parse_optional_ttl none = ok none
parse_optional_ttl (some ttl) = bind_result (parse_ttl_minutes ttl) (λ n. ok (some n))

-- A leased task is cancelled by its holder only.
abbrev require_fence : Dict → String → String → Option ℤ → Result (Unit {0})
require_fence task status agent none =
    err (value_error "leased task cancellation requires a fencing token")
require_fence task status agent (some token) = require_lease task status agent token

-- The guard of `cancel_task`.
unfoldable pub require_cancellable : Dict → String → String → Option ℤ → Result (Unit {0})
require_cancellable task status agent token =
    if str_eq status "leased"
    then require_fence task status agent token
    else if str_eq status "open"
    then ok tt
    else err (value_error ("cannot cancel task in status " <> status))

-- The lease of a task that goes back to the open queue.
abbrev cleared : Dict → Dict
cleared lease = set "leased_by" null (set "leased_at" null lease)

-- The task that `complete_task` submits.
abbrev submitted_task : Dict → Dict → String → List String → String → String → String → Dict
submitted_task task completion agent output_refs summary key timestamp =
    set "updated_at" (str timestamp) (
      set "status" (str "submitted") (
        set "completion"
          (obj (
            update completion (
              ("idempotency_key", str key)
              ∷ ("output_refs", arr (strings (sorted_set output_refs)))
              ∷ ("submitted_at", str timestamp)
              ∷ ("submitted_by", str agent)
              ∷ ("summary", str summary)
              ∷ [])))
          task))

module _ ⦃env : Env⦄ where
  -- The lines that every transition ends with: the new file, the old one's removal, both rows.
  unfoldable pub store_transition : String → Dict → FilePath → String → String → Exec Dict
  store_transition id task old_path status event = do
    destination ← lift (task_path id status)
    write_file destination (obj task)
    unlink_old old_path destination
    task' ← upsert_lease task status
    record_outbox event id task'
    pure task'

  heartbeat_body : String → String → ℤ → Option Ttl → Exec Dict
  unfolding parse_optional_ttl
  heartbeat_body id agent token ttl = do
    (task, path, status) ← load_task id
    lift (require_lease task status agent token)
    let lease = lease_of task
    require (is_true (get "renewal_allowed" lease))
        (value_error "task lease does not permit renewal")
    timestamp ← now_iso
    let lease' = set "leased_at" (str timestamp) (set "heartbeat_at" (str timestamp) lease)
    minutes ← lift (parse_optional_ttl ttl)
    let task' = set "updated_at" (str timestamp) (with_lease (renew minutes lease') task)
    write_file path (obj task')
    task'' ← upsert_lease task' "leased"
    record_outbox "task.heartbeat" id task''
    pure task''

  -- `heartbeat_task`
  unfoldable pub heartbeat_task : String → String → ℤ → Option Ttl → Exec Reply
  unfolding heartbeat_body
  heartbeat_task id agent token ttl = do
    _ ← lift (validate_identifier id "task_id")
    task ← transaction (heartbeat_body id agent token ttl)
    pure (record { idempotent = false; status_after = "leased"; task = task })

  complete_leased :
      String → String → ℤ → List String → String → String → Dict → FilePath → String → Exec Reply
  complete_leased id agent token output_refs summary key task old_path status = do
    lift (require_lease task status agent token)
    timestamp ← now_iso
    let task' =
        submitted_task task (as_dict (get "completion" task)) agent output_refs summary key
          timestamp
    destination ← lift (task_path id "submitted")
    write_file destination (obj task')
    unlink_old old_path destination
    let task'' = with_lease (set "idempotency_key" (str key) (lease_of task')) task'
    task''' ← upsert_lease task'' "submitted"
    record_outbox "task.complete" id task'''
    pure (record { idempotent = false; status_after = "submitted"; task = task''' })

  complete_body : String → String → ℤ → List String → String → String → Exec Reply
  unfolding complete_leased
  complete_body id agent token output_refs summary key = do
    (task, old_path, status) ← load_task id
    if str_eq status "submitted"
          && is_str (get "idempotency_key" (as_dict (get "completion" task))) key
        then pure (record { idempotent = true; status_after = status; task = task })
        else complete_leased id agent token output_refs summary key task old_path status

  -- `complete_task`
  unfoldable pub complete_task : String → String → ℤ → List String → String → String → Exec Reply
  unfolding complete_body
  complete_task id agent token output_refs summary key = do
    _ ← lift (validate_identifier id "task_id")
    _ ← lift (validate_identifier key "idempotency_key")
    transaction (complete_body id agent token output_refs summary key)

  -- `_transition_from_lease`
  unfoldable pub transition_from_lease : String → String → ℤ → String → String → String → Exec Dict
  unfolding store_transition
  transition_from_lease id agent token status_after action note = do
    _ ← lift (validate_identifier id "task_id")
    transaction (do
      (task, old_path, status) ← load_task id
      lift (require_lease task status agent token)
      updated_at ← now_iso
      let task' =
          with_extension "x_lifecycle"
            (obj (dict (("actor", str agent) ∷ ("action", str action) ∷ ("note", str note) ∷ [])))
            (set "updated_at" (str updated_at) (set "status" (str status_after) task))
      store_transition id task' old_path status_after action)

  -- `fail_task` returns the task and the residual that is ready to be saved.
  unfoldable pub fail_task : String → String → ℤ → String → Exec (Reply × Dict)
  unfolding transition_from_lease
  fail_task id agent token reason = do
    task ← transition_from_lease id agent token "blocked" "task.fail" reason
    residual ← build_residual (
        residual_spec "settlement_blocker" ("Task failed and requires repair: " <> reason) true
          "task" id (id ∷ []) "ccr.task.fail")
    pure (record { idempotent = false; status_after = "blocked"; task = task }, residual)

  cancel_body : String → String → String → Option ℤ → Exec Dict
  unfolding store_transition
  cancel_body id agent reason token = do
    (task, old_path, status) ← load_task id
    lift (require_cancellable task status agent token)
    updated_at ← now_iso
    let task' =
        with_extension "x_lifecycle"
          (obj (dict (("cancelled_by", str agent) ∷ ("reason", str reason) ∷ [])))
          (set "updated_at" (str updated_at) (set "status" (str "rejected") task))
    store_transition id task' old_path "rejected" "task.cancel"

  -- `cancel_task`
  unfoldable pub cancel_task : String → String → String → Option ℤ → Exec Reply
  unfolding cancel_body
  cancel_task id agent reason token = do
    _ ← lift (validate_identifier id "task_id")
    task ← transaction (cancel_body id agent reason token)
    pure (record { idempotent = false; status_after = "rejected"; task = task })

  retry_body : String → String → Exec Dict
  unfolding store_transition
  retry_body id reason = do
    (task, old_path, status) ← load_task id
    require (elem status ("blocked" ∷ "rejected" ∷ []))
        (value_error ("cannot retry task in status " <> status))
    updated_at ← now_iso
    let reopened = set "updated_at" (str updated_at) (set "status" (str "open") task)
    let unleased = with_lease (cleared (lease_of reopened)) reopened
    let lifecycle = as_dict (get "x_lifecycle" (extensions_of unleased))
    count ← lift (to_int (get_default (get "retry_count" lifecycle) (int (pos 0))))
    let lifecycle' =
        set "retry_reason" (str reason) (set "retry_count" (int (count +ℤ pos 1)) lifecycle)
    store_transition id (with_extension "x_lifecycle" (obj lifecycle') unleased) old_path "open"
        "task.retry"

  -- `retry_task`
  unfoldable pub retry_task : String → String → Exec Reply
  unfolding retry_body
  retry_task id reason = do
    _ ← lift (validate_identifier id "task_id")
    task ← transaction (retry_body id reason)
    pure (record { idempotent = false; status_after = "open"; task = task })
