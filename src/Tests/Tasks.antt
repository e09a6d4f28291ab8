-- ===== src/Tests/Tasks.antt =====
-- Examples for tasks/lease.py and tasks/lifecycle.py: one task, leased to `ann` under token 3 by a
-- lease that ran out, open, submitted or blocked.
use collective_capability_ru.Prelude.{
  ◌+◌, ◌*◌, leb, true, ◌≡◌, ◌↔◌, refl, ◌⊎◌, none, some, List, [], ◌∷◌, arith, elem,
}
use collective_capability_ru.Prelude.Int.{pos, ◌≤ℤ◌}
use collective_capability_ru.Result.{overflow_error, ok, err}
use collective_capability_ru.Json.Fields.{contains, set, get}
use collective_capability_ru.Exec.{
  unlink_old, now_iso, now_utc, unlink, write_file, to_dict, read_file, transaction, exists, ◌>>=◌,
}
use collective_capability_ru.Exec.Columns.{bind_all}
use collective_capability_ru.Exec.Laws.{Ends, Same}
use collective_capability_ru.Time.{parse_timestamp, expires_at, is_expired, text, parse_ttl_minutes}
use collective_capability_ru.Ids.{json_file_name, validate_identifier}
use collective_capability_ru.Tasks.{task_path, task_file, require_lease}
use collective_capability_ru.Tasks.Machine.{Stage, Steps, at_status, unheld}
use collective_capability_ru.Tasks.Tracking.{Tracks, row_token}
use collective_capability_ru.Tasks.Fence.{HoldsLease, require_lease_iff}
use collective_capability_ru.Tasks.Lease.{
  lease_expired, lease_leased, lease_open, lease_task, release_task,
}
use collective_capability_ru.Tasks.Lease.Release.{ReleaseFails, Released, release_task_refines}
use collective_capability_ru.Tasks.Lifecycle.{
  require_cancellable, fail_task, cancel_task, retry_task,
}
use collective_capability_ru.Tasks.Lifecycle.Moves.{Refused, IsHolder}
use collective_capability_ru.Tasks.Lifecycle.Cancel.{
  IsCancellable, fail_task_refines, cancel_task_refines,
}
use collective_capability_ru.Tasks.Lifecycle.Retry.{RetryFails, retry_task_refines}
use collective_capability_ru.Tasks.Traces.{
  Call, perform, perform_all, perform_all_refines, fencing_monotone, submitted_final,
  stale_call_fenced, calls_fit,
}
use collective_capability_ru.Json.Python.{to_int}
use collective_capability_ru.Env.{to_text}
use collective_capability_ru.Tasks.{
  dict_copy, next_fencing_token, record_lease, upsert_lease, record_outbox, task_key,
}
use collective_capability_ru.Ids.{stable_id}
use collective_capability_ru.Tasks.Lifecycle.{transition_from_lease, store_transition}
use collective_capability_ru.Tasks.Queue.{load_task, find_task_path, find_in}
use collective_capability_ru.Prelude.Map.{lookup, insert, erase}
use collective_capability_ru.Residuals.{build_residual, residual_id_of}
use collective_capability_ru.Prelude.Sorted.{sort_texts, insert_text}
use collective_capability_ru.Prelude.Text.{decimal}
use collective_capability_ru.Time.Expiry.{now_of, is_expired-iso}
use collective_capability_ru.Tests.Setup.{
  iso_text, test_env, open_world, open_stage, open_tracks, world_at, stage_at, tracks_at,
  leased_task, file_name,
}

-- `bob` takes the lease that ran out, fails the task, and it is opened again and cancelled.
abbrev calls : List Call
calls =
    Call.lease (text "30m") "bob"
    ∷ Call.fail "bob" (pos 4) "no tests"
    ∷ Call.retry "again"
    ∷ Call.cancel "op" "not needed" none
    ∷ []

calls_fitting : calls_fit calls ≡ true
unfolding parse_ttl_minutes
calls_fitting = refl

perform_all_refines_example :
    (b : Stage) × Steps (stage_at "leased") b
    × Tracks "t1" "t1.json" b (perform_all "t1" calls (world_at "leased"))
perform_all_refines_example =
    perform_all_refines "t1" "t1.json" file_name calls (stage_at "leased") (world_at "leased")
      (tracks_at "leased" refl) calls_fitting refl

fencing_monotone_example :
    (row_token "t1" (world_at "leased").db
      ≤ℤ row_token "t1" (perform_all "t1" calls (world_at "leased")).db)
    × (row_token "t1" (world_at "leased").db
        ≤ℤ row_token "t1"
            (perform "t1" (Call.retry "again") (perform_all "t1" calls (world_at "leased"))).db)
fencing_monotone_example =
    fencing_monotone "t1" "t1.json" (stage_at "leased") (world_at "leased") file_name
      (tracks_at "leased" refl) calls calls_fitting refl (Call.retry "again")

submitted_final_example :
    Tracks "t1" "t1.json" (stage_at "submitted") (perform_all "t1" calls (world_at "submitted"))
submitted_final_example =
    submitted_final "t1" "t1.json" (stage_at "submitted") (world_at "submitted") file_name
      (tracks_at "submitted" refl) refl calls

stale_call_fenced_example :
    Same (world_at "leased") (perform "t1" (Call.heartbeat "ann" (pos 2) none) (world_at "leased"))
stale_call_fenced_example =
    stale_call_fenced "t1" "t1.json" (stage_at "leased") (world_at "leased") file_name
      (tracks_at "leased" refl) (Call.heartbeat "ann" (pos 2) none) (pos 2) refl (λ e. ground arith)

release_task_refines_example :
    Ends
      (λ reply w'.
        Released "t1" "t1.json" "blocked by bob"
          (some "ann")
          (some (pos 3))
          (stage_at "leased")
          (world_at "leased")
          file_name
          (tracks_at "leased" refl)
          reply.status_after
          w')
      (λ e w'.
        Same (world_at "leased") w'
        × ReleaseFails "t1" "t1.json" "blocked by bob"
            (some "ann")
            (some (pos 3))
            (stage_at "leased")
            (world_at "leased")
            file_name
            (tracks_at "leased" refl)
            e)
      (release_task "t1" "blocked by bob" (some "ann") (some (pos 3)) (world_at "leased"))
release_task_refines_example =
    release_task_refines "t1" "t1.json" "blocked by bob" (some "ann") (some (pos 3))
      (stage_at "leased") (world_at "leased") file_name (tracks_at "leased" refl)

fail_task_refines_example :
    Ends
      (λ _ w'.
        IsHolder "ann" (pos 3) (stage_at "leased")
        × Tracks "t1" "t1.json" (at_status (stage_at "leased") "blocked") w')
      (λ e w'.
        Refused "t1" "ann"
          (pos 3)
          (stage_at "leased")
          (tracks_at "leased" refl).task
          (world_at "leased")
          e
          w')
      (fail_task "t1" "ann" (pos 3) "no tests" (world_at "leased"))
fail_task_refines_example =
    fail_task_refines "t1" "t1.json" "ann" (stage_at "leased") (world_at "leased") file_name
      (tracks_at "leased" refl) (pos 3) "no tests"

cancel_task_refines_example :
    Ends
      (λ _ w'.
        IsCancellable "op" open_stage none
        × Tracks "t1" "t1.json" (at_status open_stage "rejected") w')
      (λ e w'.
        Same open_world w'
        × ((validate_identifier "t1" "task_id" ≡ err e)
            ⊎ (require_cancellable open_tracks.task "open" "op" none ≡ err e)))
      (cancel_task "t1" "op" "not needed" none open_world)
cancel_task_refines_example =
    cancel_task_refines "t1" "t1.json" "op" open_stage open_world file_name open_tracks "not needed"
      none

retry_task_refines_example :
    Ends
      (λ _ w'.
        (elem "blocked" ("blocked" ∷ "rejected" ∷ []) ≡ true)
        × Tracks "t1" "t1.json" (unheld (stage_at "blocked") "open") w')
      (λ e w'.
        Same (world_at "blocked") w'
        × RetryFails "t1" (stage_at "blocked") (tracks_at "blocked" refl).task e)
      (retry_task "t1" "again" (world_at "blocked"))
retry_task_refines_example =
    retry_task_refines "t1" "t1.json" (stage_at "blocked") (world_at "blocked") file_name
      (tracks_at "blocked" refl) "again"

require_lease_iff_example :
    (require_lease (leased_task "leased") "leased" "ann" (pos 3) ≡ ok tt)
    ↔ HoldsLease (leased_task "leased") "leased" "ann" (pos 3)
require_lease_iff_example = require_lease_iff (leased_task "leased") "leased" "ann" (pos 3)

-- The calls above all return: each leaves its event in the outbox, and the token is the second
-- grant's.
run_calls :
    let w = perform_all "t1" calls (world_at "leased") in
    (row_token "t1" w.db ≡ pos 4) × (exists (task_file "rejected" "t1.json") w ≡ true)
unfolding perform_all perform lease_task fail_task retry_task cancel_task ◌>>=◌ transaction
    task_path json_file_name validate_identifier exists lease_open lease_leased lease_expired
    is_expired expires_at parse_timestamp parse_ttl_minutes read_file to_dict write_file unlink
    now_utc now_iso get set contains to_int to_text dict_copy next_fencing_token record_lease
    upsert_lease record_outbox stable_id transition_from_lease store_transition unlink_old load_task
    find_task_path find_in require_lease require_cancellable task_key lookup insert erase
    build_residual sort_texts insert_text residual_id_of decimal
run_calls = (refl, refl)

-- A lease of 2^63 minutes is written to its file and its row cannot be stored: the file has the next
-- token, and the row has the old one.
row_too_large :
    let (r, w) = lease_task "t1" (text "9223372036854775808m") "bob" (world_at "leased") in
    (r ≡ err overflow_error) × (row_token "t1" w.db ≡ pos 3)
unfolding lease_task ◌>>=◌ transaction task_path json_file_name validate_identifier exists
    lease_open lease_leased lease_expired is_expired expires_at parse_timestamp parse_ttl_minutes
    read_file to_dict write_file unlink now_utc now_iso get set contains to_int to_text dict_copy
    next_fencing_token record_lease bind_all record_outbox find_task_path find_in lookup insert
    erase decimal
row_too_large = (refl, refl)

is_expired-iso_example :
    Ends
      (λ b w'.
        Same (world_at "leased") w'
        × (b ≡ leb (1 * 1000000 + 1 * 60000000) (now_of (world_at "leased"))))
      (λ _ _. ⊥)
      (is_expired (iso_text 1) (pos 1) (world_at "leased"))
is_expired-iso_example = is_expired-iso 1 1 (world_at "leased") (ground arith)
