-- ===== src/Tasks/Lease.antt =====
-- tasks/lease.py: leasing, reclaiming and releasing a task, each in one transaction.
pub mod Terms
pub mod Refines
pub mod Release
use collective_capability_ru.Prelude.{
  ℕ, ◌+◌, ◌-◌, String, Bool, true, false, not, ◌&&◌, ◌||◌, Option, none, some, List, [], ◌∷◌, ltb,
  leb, ◌==◌, str_eq, if◌then◌else◌,
}
use collective_capability_ru.Prelude.Int.{ℤ, pos, eqb_ℤ}
use collective_capability_ru.Prelude.Map.{FilePath}
use collective_capability_ru.Prelude.Text.{lower_codes, has_part, codes, ◌<>◌, is_upper}
use collective_capability_ru.Result.{
  Result, ok, err, value_error, file_not_found, require, ◌>>=◌ as bind_result,
}
use collective_capability_ru.Json.{Json, Dict, null, bool, int, str, obj}
use collective_capability_ru.Json.Fields.{get, set, update}
use collective_capability_ru.Json.Python.{
  is_str, is_opt_str, as_dict, or_default, get_default, to_int,
}
use collective_capability_ru.Env.{Env, to_text}
use collective_capability_ru.Exec.{
  Exec, pure, raise, lift, gets, now_iso, exists, read_file, require_dict, write_file, unlink,
  transaction, ◌>>=◌, ◌>>◌,
}
use collective_capability_ru.Time.{Ttl, parse_ttl_minutes, is_expired}
use collective_capability_ru.Residuals.{ResidualSpec, residual_spec, build_residual}
use collective_capability_ru.Tasks.{
  task_path, lease_of, token_of, dict_copy, next_fencing_token, record_lease, record_outbox,
}

-- What `lease_task` returns: the lease, with `reclaimed` and `status_before`, or a refusal that
-- names the holder.
pub data LeaseReply : Type 0 where
  granted : (reclaimed : Bool) (status_before : String) (task : Dict) → LeaseReply
  active : (leased_by : Option Json) (task : Dict) → LeaseReply

-- What `release_task` returns.
pub record ReleaseReply : Type 0 where
  pub residual : Option Dict
  pub status_after : String
  pub task : Dict

-- `task["lease"]["lease_required"]`, a boolean where it is given.
unfoldable pub lease_required : Option Json → Result Bool
lease_required none = ok true
lease_required (some (bool b)) = ok b
lease_required (some _) = err (value_error "task lease_required must be a JSON boolean")

not_object : String → String
not_object id = "task " <> (id <> " is not a JSON object")

unfoldable pub status_after_release : String → String
status_after_release reason =
    if has_part (codes "block") (lower_codes reason) then "blocked" else "open"

abbrev release_refusal : String
release_refusal = "active task release requires its owner and current fencing token"

-- `lease.get("leased_by") != agent or token != fencing_token`, where both may be `None`.
unfoldable pub foreign_fence : Dict → Option String → ℤ → Option ℤ → Bool
foreign_fence lease agent held none = true
foreign_fence lease agent held (some token) =
    not (is_opt_str (get "leased_by" lease) agent && eqb_ℤ held token)

-- The guard of `release_task`: a lease that has not expired is released by its holder only. The
-- token is read only if the holder fits.
unfoldable pub require_release : Dict → Option String → Option ℤ → Bool → Result (Unit {0})
require_release lease agent token true = ok tt
require_release lease agent token false =
    if is_opt_str (get "leased_by" lease) agent
    then bind_result (token_of lease)
        (λ held. require (not (foreign_fence lease agent held token)) (value_error release_refusal))
    else err (value_error release_refusal)

module _ ⦃env : Env⦄ where
  -- The branch for a task in the open queue.
  unfoldable pub lease_open : String → ℕ → String → Exec LeaseReply
  unfolding not_object
  lease_open id ttl agent = do
    open_path ← lift (task_path id "open")
    leased_path ← lift (task_path id "leased")
    value ← read_file open_path (file_not_found id)
    task ← require_dict value (not_object id)
    let status_before = to_text (get_default (get "status" task) (str "open"))
    updated_at ← now_iso
    lease ← lift (dict_copy (get "lease" task))
    required ← lift (lease_required (get "lease_required" lease))
    token ← gets (λ w. next_fencing_token id w.db)
    leased_at ← now_iso
    let lease' = update lease (
        ("lease_required", bool required)
        ∷ ("leased_at", str leased_at)
        ∷ ("leased_by", str agent)
        ∷ ("fencing_token", int token)
        ∷ ("heartbeat_at", str leased_at)
        ∷ ("ttl_minutes", int (pos ttl))
        ∷ [])
    let task' =
        set "lease" (obj lease')
          (set "updated_at" (str updated_at) (set "status" (str "leased") task))
    write_file leased_path (obj task')
    unlink open_path
    record_lease id lease' "leased"
    record_outbox "task.leased" id task'
    pure (granted false status_before task')

  -- `is_expired(...)` of a stored lease, with the number of minutes to take where it has none.
  unfoldable pub lease_expired : Dict → ℕ → Exec Bool
  lease_expired lease default = do
    ttl ← lift (to_int (or_default (get "ttl_minutes" lease) (int (pos default))))
    is_expired (to_text (or_default (get "leased_at" lease) (str ""))) ttl

  reclaim : String → ℕ → String → Bool → Dict → Dict → Exec LeaseReply
  reclaim id ttl agent expired task lease = do
    leased_path ← lift (task_path id "leased")
    updated_at ← now_iso
    token ← gets (λ w. next_fencing_token id w.db)
    leased_at ← now_iso
    let lease' = update lease (
        ("fencing_token", int token)
        ∷ ("heartbeat_at", str leased_at)
        ∷ ("leased_at", str leased_at)
        ∷ ("leased_by", str agent)
        ∷ ("ttl_minutes", int (pos ttl))
        ∷ [])
    let task' =
        set "lease" (obj lease')
          (set "updated_at" (str updated_at) (set "status" (str "leased") task))
    write_file leased_path (obj task')
    record_lease id lease' "leased"
    record_outbox "task.reclaimed" id task'
    pure (granted expired "leased" task')

  -- The branch for a task that is leased: refused while another agent's lease is active.
  unfoldable pub lease_leased : String → ℕ → String → Exec LeaseReply
  unfolding reclaim not_object
  lease_leased id ttl agent = do
    leased_path ← lift (task_path id "leased")
    value ← read_file leased_path (file_not_found id)
    task ← require_dict value (not_object id)
    let lease = lease_of task
    expired ← lease_expired lease ttl
    if not expired && not (is_str (get "leased_by" lease) agent)
        then pure (active (get "leased_by" lease) task)
        else reclaim id ttl agent expired task lease

  lease_body : String → ℕ → String → Exec (Option LeaseReply)
  lease_body id ttl agent = do
    open_path ← lift (task_path id "open")
    leased_path ← lift (task_path id "leased")
    is_open ← gets (exists open_path)
    is_leased ← gets (exists leased_path)
    if is_open
        then (do r ← lease_open id ttl agent; pure (some r))
        else if is_leased
        then (do r ← lease_leased id ttl agent; pure (some r))
        else pure none

  granted_or_missing : String → Option LeaseReply → Exec LeaseReply
  granted_or_missing id none = raise (file_not_found id)
  granted_or_missing id (some r) = pure r

  -- `lease_task`
  unfoldable pub lease_task : String → Ttl → String → Exec LeaseReply
  unfolding lease_body granted_or_missing
  lease_task id ttl agent = do
    ttl_minutes ← lift (parse_ttl_minutes ttl)
    found ← transaction (lease_body id ttl_minutes agent)
    granted_or_missing id found

  release_leased : String → String → FilePath → Dict → Exec (String × Dict)
  release_leased id reason leased_path task = do
    let status_after = status_after_release reason
    updated_at ← now_iso
    lease ← lift (dict_copy (get "lease" task))
    let lease' = set "leased_at" null (set "leased_by" null lease)
    let task' =
        set "lease" (obj lease')
          (set "updated_at" (str updated_at) (set "status" (str status_after) task))
    destination ← lift (task_path id status_after)
    write_file destination (obj task')
    unlink leased_path
    record_lease id lease' status_after
    record_outbox "task.released" id task'
    pure (status_after, task')

  released : String → String → Option String → Option ℤ → Exec (String × Dict)
  unfolding not_object release_leased
  released id reason agent token = do
    leased_path ← lift (task_path id "leased")
    value ← read_file leased_path (file_not_found id)
    task ← require_dict value (not_object id)
    expired ← lease_expired (lease_of task) 1
    lift (require_release (lease_of task) agent token expired)
    release_leased id reason leased_path task

  blocked_residual : String → String → Exec Dict
  blocked_residual id reason =
      build_residual
        (record (residual_spec "settlement_blocker" ("Task released as blocked: " <> reason) true
          "task" id (id ∷ []) "ccr.task.release") {
            repair_hint = "Review the blocking reason and create a repair task or verifier action.";
          })

  with_residual : String → String → String → Dict → Exec ReleaseReply
  unfolding blocked_residual
  with_residual id reason status_after task =
      if str_eq status_after "blocked"
      then (do
        r ← blocked_residual id reason
        pure (record { residual = some r; status_after = status_after; task = task }))
      else pure (record { residual = none; status_after = status_after; task = task })

  -- `release_task`
  unfoldable pub release_task : String → String → Option String → Option ℤ → Exec ReleaseReply
  unfolding released with_residual
  release_task id reason agent token = do
    (status_after, task) ← transaction (released id reason agent token)
    with_residual id reason status_after task
