-- ===== src/Tasks.antt =====
-- tasks/model.py and the helpers that tasks/lease.py and tasks/lifecycle.py share: where a task's
-- file lies, how its lease is read, and the rows that a transition writes.
pub mod Queue
pub mod Lease
pub mod Lifecycle
pub mod Machine
pub mod Tracking
pub mod Effects
pub mod Fence
pub mod Traces
pub mod Factory
pub mod Submitting
pub mod Scheduler
use collective_capability_ru.Prelude.{
  ℕ, ◌+◌, String, Bool, true, false, Option, none, some, List, [], ◌∷◌, str_eq, if◌then◌else◌,
}
use collective_capability_ru.Prelude.Int.{ℤ, pos, ◌+ℤ◌, eqb_ℤ}
use collective_capability_ru.Prelude.Map.{FilePath, path_eq, string_eq, lookup, insert}
use collective_capability_ru.Prelude.Text.{◌<>◌}
use collective_capability_ru.Result.{
  Result, ok, err, value_error, type_error, key_error, require, ◌>>=◌ as bind_result,
}
use collective_capability_ru.Json.{Json, Dict, null, int, str, obj, arr, nil, end, dict}
use collective_capability_ru.Json.Fields.{get, set}
use collective_capability_ru.Json.Python.{is_str, as_dict, is_dict, or_default, get_default, to_int}
use collective_capability_ru.Env.{Env}
use collective_capability_ru.Exec.{
  insert_outbox, World, Database, LeaseRow, OutboxRow, Exec, pure, lift, now_iso, exists,
  write_file, unlink, ◌>>=◌, ◌>>◌,
}
use collective_capability_ru.Exec.Columns.{bind_all}
use collective_capability_ru.Ids.{json_file_name, stable_id}

-- The keys of `STATUS_TO_DIR`, in order; each status names its own directory.
abbrev pub statuses : List String
statuses =
    "open" ∷ "leased" ∷ "submitted" ∷ "blocked" ∷ "verified" ∷ "integrated" ∷ "quarantined"
    ∷ "rejected" ∷ "expired" ∷ []

-- The file of a task whose file name is known.
abbrev pub task_file : String → String → FilePath
task_file status name = "tasks" ∷ status ∷ name ∷ []

-- `task_path`
unfoldable pub task_path : String → String → Result FilePath
task_path id status = bind_result (json_file_name id) (λ name. ok (task_file status name))

-- `_lease(task)` leaves a dict under "lease"; the second function reads it.
abbrev pub ensure_lease : Dict → Dict
ensure_lease task = if is_dict (get "lease" task) then task else set "lease" (obj end) task

abbrev pub lease_of : Dict → Dict
lease_of task = as_dict (get "lease" task)

-- Writes to the dict that `_lease(task)` returned.
abbrev pub with_lease : Dict → Dict → Dict
with_lease lease task = set "lease" (obj lease) task

-- `_extensions(task)`, read and written in the same way.
abbrev pub extensions_of : Dict → Dict
extensions_of task = as_dict (get "extensions" task)

abbrev pub with_extension : String → Json → Dict → Dict
with_extension key value task = set "extensions" (obj (set key value (extensions_of task))) task

-- `int(lease.get("fencing_token", 0) or 0)`
abbrev pub token_of : Dict → Result ℤ
token_of lease = to_int (or_default (get "fencing_token" lease) (int (pos 0)))

-- `_require_lease`
unfoldable pub require_lease : Dict → String → String → ℤ → Result (Unit {0})
require_lease task status agent token =
    if str_eq status "leased"
    then if is_str (get "leased_by" (lease_of task)) agent
      then bind_result (token_of (lease_of task))
          (λ held. require (eqb_ℤ held token) (value_error "stale task fencing token"))
      else err (value_error "task lease owner does not match agent")
    else err (value_error ("task is not leased: " <> status))

-- `dict(value)` of `task.get("lease", {})`. A non-empty list of pairs is refused here.
unfoldable pub dict_copy : Option Json → Result Dict
dict_copy none = ok end
dict_copy (some (obj d)) = ok d
dict_copy (some (arr nil)) = ok end
dict_copy (some (str s)) =
    if str_eq s "" then ok end else err (value_error "dictionary update sequence element #0")
dict_copy (some _) = err type_error

-- `_next_fencing_token`
unfoldable pub next_fencing_token : String → Database → ℤ
next_fencing_token id db = elim (lookup id db.leases) [
  | none ↦ pos 1
  | some row ↦ row.fencing_token +ℤ pos 1
]

-- `task["task_id"]`, as the key of a row.
abbrev pub row_key : Option Json → Result String
row_key none = err (key_error "task_id")
row_key (some (str id)) = ok id
row_key (some _) = err type_error

unfoldable pub task_key : Dict → Result String
task_key task = row_key (get "task_id" task)

store_lease : String → LeaseRow → Exec (Unit {0})
store_lease id row w = (ok tt, record w { db = record w.db { leases = insert id row w.db.leases } })

-- `INSERT INTO leases ... ON CONFLICT(task_id) DO UPDATE`; the text columns left out here bind.
insert_lease : String → LeaseRow → Exec (Unit {0})
unfolding bind_all store_lease
insert_lease id row = do
  lift (
      bind_all (
        row.leased_by
        ∷ row.leased_at
        ∷ row.ttl_minutes
        ∷ some (int row.fencing_token)
        ∷ row.heartbeat_at
        ∷ row.idempotency_key
        ∷ []))
  store_lease id row

module _ ⦃env : Env⦄ where
  -- `_record_lease`
  unfoldable pub record_lease : String → Dict → String → Exec (Unit {0})
  unfolding insert_lease
  record_lease id lease status = do
    token ← lift (token_of lease)
    at ← now_iso
    insert_lease id (record {
      leased_by = get "leased_by" lease;
      leased_at = get "leased_at" lease;
      ttl_minutes = get "ttl_minutes" lease;
      fencing_token = token;
      heartbeat_at = get "heartbeat_at" lease;
      idempotency_key = get "idempotency_key" lease;
      status = status;
      updated_at = at;
    })

  -- `_upsert_lease`; returns the task, which has a lease dict from here on.
  unfoldable pub upsert_lease : Dict → String → Exec Dict
  unfolding record_lease
  upsert_lease task status = do
    id ← lift (task_key task)
    record_lease id (lease_of task) status
    pure (ensure_lease task)

  -- `_record_outbox` and `_outbox`; the payload column holds the task's JSON text.
  unfoldable pub record_outbox : String → String → Dict → Exec (Unit {0})
  unfolding insert_outbox stable_id
  record_outbox event_type id task = do
    let event_id =
        stable_id "outbox" (str event_type ∷ str id ∷ get_default (get "updated_at" task) null ∷ [])
    at ← now_iso
    insert_outbox event_id
        (record { event_type = event_type; aggregate_id = id; payload = obj task; created_at = at })
