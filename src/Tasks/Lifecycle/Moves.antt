-- ===== src/Tasks/Lifecycle/Moves.antt =====
-- The end that the transitions of lifecycle.py share, and `_transition_from_lease`.
use collective_capability_ru.Prelude.{
  inl, ◌⊎◌, inr, String, ◌≡◌, refl, ◌∙◌, true, false, str_eq, elem,
}
use collective_capability_ru.Prelude.Int.{ℤ}
use collective_capability_ru.Prelude.Map.{string_eq, file_path_eq}
use collective_capability_ru.Result.{Error, ok, err}
use collective_capability_ru.Json.{Json, Dict, str, obj}
use collective_capability_ru.Json.Fields.{set}
use collective_capability_ru.Json.Python.{is_str}
use collective_capability_ru.Env.{Env}
use collective_capability_ru.Exec.{World}
use collective_capability_ru.Exec.Laws.{
  Ends, Same, Same-refl, Ends-weaken, Ends-pure, Ends-bind, Ends-lift, Ends-transaction, step,
  step_lift,
}
use collective_capability_ru.Exec.Steps.{tick, step_now, step_write}
use collective_capability_ru.Ids.{json_file_name, validate_identifier}
use collective_capability_ru.Tasks.{task_file, require_lease, statuses}
use collective_capability_ru.Tasks.Machine.{Stage, at_status}
use collective_capability_ru.Tasks.Tracking.{
  Holds, Holds-moved, Holds-before_unlink, IsTask, Tracks, set-IsTask, path_eq_task,
}
use collective_capability_ru.Tasks.Effects.{
  task_path_named, record_outbox-Ends, upsert_lease-Ends, tracked, load_task_tracked,
  step_unlink_old,
}
use collective_capability_ru.Tasks.Fence.{require_lease_iff}
use collective_capability_ru.Tasks.Lifecycle.{store_transition, transition_from_lease}

-- The move of a tracked task's file to the queue of another status.
pub store_transition-Ends :
    ⦃env : Env⦄ {Q : Error → World → Type 0} (id name s : String) (b : Stage) (old task : Dict)
    (event : String) (w : World)
    → json_file_name id ≡ ok name
    → str_eq s b.status ≡ false
    → elem b.status statuses ≡ true
    → Holds name s old w.files
    → IsTask id b.holder b.token task
    → Ends
        (λ _ w'. Tracks id name b w')
        Q
        (store_transition id task (task_file s name) b.status event w)
unfolding store_transition
store_transition-Ends id name s b old task event w named moves known holds fields =
    step_lift _ _ (task_path_named id name named b.status) (
      step_write _ _ _ _ (
        step_unlink_old _ _ _ _ (path_eq_task s b.status name ∙ moves)
          (Holds-before_unlink name s b.status old (obj task) w.files moves holds)
          (Ends-bind _ _ _
            (upsert_lease-Ends id task b.status b.token _ fields.key fields.fenced fields.storable)
            (λ task' w₂ row. Ends-bind _ _ _ (record_outbox-Ends event id task' w₂) (λ _ w₃ sent.
              Ends-pure _ _ (
                tracked id name b task _ w₂ w₃
                  (Holds-moved name s b.status old task w.files moves holds) known fields row
                  sent))))))

-- A transition's stamps and its note leave the lease as it was.
pub stamped-IsTask :
    (id : String) (a : Stage) (status at : String) (extensions : Json) (task : Dict)
    → IsTask id a.holder a.token task
    → IsTask id a.holder a.token
        (set "extensions" extensions (set "updated_at" (str at) (set "status" (str status) task)))
stamped-IsTask id a status at extensions task h =
    set-IsTask _ _ _ "extensions" _ _ refl refl
      (set-IsTask _ _ _ "updated_at" _ _ refl refl (set-IsTask _ _ _ "status" _ _ refl refl h))

-- The agent holds the task's lease, under this token.
pub record IsHolder (agent : String) (token : ℤ) (a : Stage) : Type 0 where
  pub leased : a.status ≡ "leased"
  pub owned : is_str a.holder agent ≡ true
  pub current : a.token ≡ token

pub IsHolder-of :
    (id name agent status : String) (token : ℤ) (a : Stage) (w : World) (t : Tracks id name a w)
    → require_lease t.task a.status agent token ≡ ok tt
    → IsHolder agent token a
IsHolder-of id name agent status token a w t h =
    let held = (require_lease_iff t.task a.status agent token).0 h in
    record {
      leased = held.leased;
      owned = rw t.fields.held_by at held.owned;
      current = cc (t.fields.fenced, held.current);
    }

-- A call has changed no file and no row, and its error is that of a guard that it does not pass:
-- its identifier's, or its lease's.
abbrev pub Refused : String → String → ℤ → Stage → Dict → World → Error → World → Type 0
Refused id agent token a task w e w' =
    Same w w'
    × ((validate_identifier id "task_id" ≡ err e)
        ⊎ (require_lease task a.status agent token ≡ err e))

module _ ⦃env : Env⦄ (id name agent : String) (token : ℤ) (a : Stage) (w : World)
    (named : json_file_name id ≡ ok name) (t : Tracks id name a w) where
  -- `_transition_from_lease` moves the task if its holder calls under the current token, and has
  -- changed nothing if it raises.
  pub transition_from_lease-Ends :
      (b action note : String)
      → str_eq "leased" b ≡ false
      → elem b statuses ≡ true
      → Ends
          (λ _ w'. IsHolder agent token a × Tracks id name (at_status a b) w')
          (λ e w'. Refused id agent token a t.task w e w')
          (transition_from_lease id agent token b action note w)
  unfolding transition_from_lease
  transition_from_lease-Ends b action note moves known =
      Ends-lift _ _ w
        (λ _ _. Ends-transaction _ w (
          step _ _ (load_task_tracked id name a w t named) (
            Ends-lift _ _ w
              (λ _ passed. step_now _ _ (
                Ends-weaken _
                  (store_transition-Ends id name a.status (at_status a b) t.task _ action (tick w)
                    named (rw (leased passed) moves) known t.holds
                    (stamped-IsTask id a b _ _ t.task t.fields))
                  (λ _ w' tracks. (IsHolder-of id name agent b token a w t passed, tracks))))
              (λ e fails. (record { files = refl; db = refl }, inr fails)))))
        (λ e fails. (Same-refl w, inl fails))
    where
      leased : require_lease t.task a.status agent token ≡ ok tt → a.status ≡ "leased"
      leased passed = ((require_lease_iff t.task a.status agent token).0 passed).leased
