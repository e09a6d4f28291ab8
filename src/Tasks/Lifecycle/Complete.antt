-- ===== src/Tasks/Lifecycle/Complete.antt =====
-- `complete_task` on a tracked task.
use collective_capability_ru.Prelude.{
  inl, ◌⊎◌, inr, String, ◌≡◌, refl, ◌∙◌, true, false, ◌&&◌, some, List, eq_iff, eq_refl, str_eq,
  and_left, and_right, if◌then◌else◌,
}
use collective_capability_ru.Prelude.Int.{ℤ}
use collective_capability_ru.Prelude.Map.{string_eq, file_path_eq}
use collective_capability_ru.Result.{Error, ok, err}
use collective_capability_ru.Json.{Dict, str, obj}
use collective_capability_ru.Json.Fields.{get, set, get-set}
use collective_capability_ru.Json.Python.{is_str, as_dict}
use collective_capability_ru.Env.{Env}
use collective_capability_ru.Exec.{World}
use collective_capability_ru.Exec.Laws.{
  Ends, Same, Same-refl, Same-rollback, Ends-pure, Ends-bind, Ends-if, Ends-lift, Ends-transaction,
  Ends-weaken_err, step, step_lift,
}
use collective_capability_ru.Exec.Steps.{stamp, step_now, step_write}
use collective_capability_ru.Ids.{json_file_name, validate_identifier}
use collective_capability_ru.Tasks.{require_lease, task_file, lease_of, with_lease, token_of}
use collective_capability_ru.Tasks.Machine.{Stage, at_status}
use collective_capability_ru.Tasks.Tracking.{
  Holds, Holds-moved, Holds-before_unlink, IsTask, IsStorable, Tracks, set-IsTask, path_eq_task,
}
use collective_capability_ru.Tasks.Effects.{
  task_path_named, record_outbox-Ends, upsert_lease-Ends, tracked, load_task_tracked,
  step_unlink_old,
}
use collective_capability_ru.Tasks.Lifecycle.{
  Reply, submitted_task, complete_leased, complete_body, complete_task,
}
use collective_capability_ru.Tasks.Lifecycle.Moves.{IsHolder, IsHolder-of}

-- The work of this key has been submitted.
abbrev pub IsDone : String → Dict → Type 0
IsDone key task = is_str (get "idempotency_key" (as_dict (get "completion" task))) key ≡ true

-- How `complete_task` may return: again, with the task as it is; or by submitting it, its file
-- marked with the key.
abbrev pub CompleteOutcome :
    String → String → String → ℤ → String → Stage → World → Reply → World → Type 0
CompleteOutcome id name agent token key a w reply w' =
    if reply.idempotent
    then (Same w w' × (a.status ≡ "submitted") × IsDone key reply.task)
    else (IsHolder agent token a
        × Tracks id name (at_status a "submitted") w'
        × ((task : Dict) × Holds name "submitted" task w'.files × IsDone key task))

-- The guards of `complete_task`: one of them gave this error.
abbrev pub CompleteFails : String → String → ℤ → String → Stage → Dict → Error → Type 0
CompleteFails id agent token key a task e =
    (validate_identifier id "task_id" ≡ err e)
    ⊎ (validate_identifier key "idempotency_key" ≡ err e)
    ⊎ (require_lease task a.status agent token ≡ err e)

module _ ⦃env : Env⦄ (id name agent : String) (token : ℤ) (refs : List String)
    (summary key : String) (a : Stage) (w : World) (named : json_file_name id ≡ ok name)
    (t : Tracks id name a w) where
  abbrev submission : Dict
  submission =
      submitted_task t.task (as_dict (get "completion" t.task)) agent refs summary key (stamp w)

  submission-IsDone : IsDone key submission
  submission-IsDone = simp (get-set) (eq_refl key)

  submission-IsTask : IsTask id a.holder a.token submission
  submission-IsTask = set-IsTask _ _ _ "updated_at" _ _ refl refl (
      set-IsTask _ _ _ "status" _ _ refl refl
        (set-IsTask _ _ _ "completion" _ _ refl refl t.fields))

  -- The key goes into the lease of the row only after the file is written.
  keyed_token :
      token_of
        (lease_of (with_lease (set "idempotency_key" (str key) (lease_of submission)) submission))
      ≡ ok a.token
  keyed_token = rw (get-set, get-set) submission-IsTask.fenced

  keyed-IsStorable :
      IsStorable
        (lease_of (with_lease (set "idempotency_key" (str key) (lease_of submission)) submission))
        a.token
  keyed-IsStorable = record {
    by = simp get-set t.fields.storable.by;
    at = simp get-set t.fields.storable.at;
    minutes = simp get-set t.fields.storable.minutes;
    small = t.fields.storable.small;
    beat = simp get-set t.fields.storable.beat;
    key = simp get-set;
  }

  keyed_id :
      get "task_id" (with_lease (set "idempotency_key" (str key) (lease_of submission)) submission)
      ≡ some (str id)
  keyed_id = rw get-set submission-IsTask.key

  complete_leased-Ends :
      Ends
        (λ reply w'. CompleteOutcome id name agent token key a w reply w')
        (λ e w'. Same w w' × (require_lease t.task a.status agent token ≡ err e))
        (complete_leased id agent token refs summary key t.task
          (task_file a.status name)
          a.status
          w)
  unfolding complete_leased
  complete_leased-Ends =
      Ends-lift _ _ w
        (λ _ passed.
          let held = IsHolder-of id name agent "submitted" token a w t passed in
          let moves : str_eq a.status "submitted" ≡ false = rw held.leased in
          step_now _ _ (
            step_lift _ _ (task_path_named id name named "submitted") (
              step_write _ _ _ _ (
                step_unlink_old _ _ _ _ (path_eq_task a.status "submitted" name ∙ moves)
                  (Holds-before_unlink name a.status "submitted" t.task (obj submission) w.files
                    moves t.holds)
                  (Ends-bind _ _ _
                    (upsert_lease-Ends id _ "submitted" a.token _ keyed_id keyed_token
                      keyed-IsStorable)
                    (λ task' w₂ row.
                      Ends-bind _ _ _ (record_outbox-Ends "task.complete" id task' w₂) (λ _ w₃ sent.
                        Ends-pure _ _ (
                          held,
                          tracked id name (at_status a "submitted") submission _ w₂ w₃
                              (Holds-moved name a.status "submitted" t.task submission w.files moves
                                t.holds)
                              refl submission-IsTask row sent,
                          (
                            submission,
                            rw (sent.kept, row.kept)
                                (Holds-moved name a.status "submitted" t.task submission w.files
                                  moves t.holds),
                            submission-IsDone,
                          ),
                        ))))))))
        (λ e fails. (Same-refl w, fails))

  pub complete_task_refines :
      Ends
        (λ reply w'. CompleteOutcome id name agent token key a w reply w')
        (λ e w'. Same w w' × CompleteFails id agent token key a t.task e)
        (complete_task id agent token refs summary key w)
  unfolding complete_task complete_body
  complete_task_refines =
      Ends-lift _ _ w
        (λ _ _.
          Ends-lift _ _ w
            (λ _ _. Ends-transaction _ w (
              step _ _ (load_task_tracked id name a w t named) (
                Ends-if
                  (str_eq a.status "submitted"
                    && is_str (get "idempotency_key" (as_dict (get "completion" t.task))) key)
                  _ _ w
                  (λ again. Ends-pure _ _ (
                    Same-refl w,
                    (eq_iff a.status "submitted").0 (and_left _ _ again),
                    and_right _ _ again,
                  ))
                  (λ _.
                    Ends-weaken_err _ complete_leased-Ends
                      (λ e w' h. (Same-rollback h.0, inr (inr h.1)))))))
            (λ e fails. (Same-refl w, inr (inl fails))))
        (λ e fails. (Same-refl w, inl fails))
