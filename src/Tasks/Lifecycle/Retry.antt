-- ===== src/Tasks/Lifecycle/Retry.antt =====
-- `retry_task` on a tracked task.
use collective_capability_ru.Prelude.{
  ◌⊎◌, String, ◌≡◌, inl, inr, refl, true, false, some, [], ◌∷◌, arith, eq_iff, str_eq, elem,
  Bool-cases,
}
use collective_capability_ru.Prelude.Map.{string_eq, file_path_eq}
use collective_capability_ru.Result.{Error, Result, ok, err, value_error, require, require_passed}
use collective_capability_ru.Json.{int, Json, Dict, null, str}
use collective_capability_ru.Json.Fields.{get, set, get-set}
use collective_capability_ru.Prelude.Text.{◌<>◌}
use collective_capability_ru.Env.{Env}
use collective_capability_ru.Exec.{World}
use collective_capability_ru.Exec.Laws.{
  Ends, Same, Same-refl, Ends-weaken, Ends-pure, Ends-bind, Ends-lift, Ends-transaction, step,
}
use collective_capability_ru.Exec.Steps.{tick, stamp, step_now}
use collective_capability_ru.Ids.{json_file_name, validate_identifier}
use collective_capability_ru.Tasks.{
  pos, extensions_of, as_dict, get_default, to_int, ℤ, lease_of, with_lease,
}
use collective_capability_ru.Tasks.Machine.{Stage, unheld}
use collective_capability_ru.Tasks.Tracking.{IsTask, Tracks, relet-IsTask, set-IsTask}
use collective_capability_ru.Tasks.Effects.{load_task_tracked}
use collective_capability_ru.Tasks.Lifecycle.{cleared, retry_body, retry_task}
use collective_capability_ru.Tasks.Lifecycle.Moves.{store_transition-Ends}

module _ (id : String) (a : Stage) (at : String) (extensions : Json) (task : Dict)
    (h : IsTask id a.holder a.token task) where
  abbrev restamped : Dict
  restamped = set "updated_at" (str at) (set "status" (str "open") task)

  restamped-IsTask : IsTask id a.holder a.token restamped
  restamped-IsTask =
      set-IsTask _ _ _ "updated_at" _ _ refl refl (set-IsTask _ _ _ "status" _ _ refl refl h)

  retried-IsTask :
      IsTask id
        (some null)
        a.token
        (set "extensions" extensions (with_lease (cleared (lease_of restamped)) restamped))
  retried-IsTask = set-IsTask _ _ _ "extensions" _ _ refl refl (
      relet-IsTask id _ _ restamped-IsTask.required _ _ restamped-IsTask.key (simp get-set)
        (simp get-set (simp get-set at restamped-IsTask.flag))
        (simp get-set (simp get-set at restamped-IsTask.fenced))
        (record {
          by = simp get-set;
          at = simp get-set;
          minutes = simp get-set (simp get-set at restamped-IsTask.storable.minutes);
          small = h.storable.small;
          beat = simp get-set (simp get-set at restamped-IsTask.storable.beat);
          key = simp get-set (simp get-set at restamped-IsTask.storable.key);
        }))

-- `int(lifecycle.get("retry_count", 0))`
abbrev pub retries_of : Dict → Result ℤ
retries_of task = to_int (
    get_default (get "retry_count" (as_dict (get "x_lifecycle" (extensions_of task))))
      (int (pos 0)))

-- The guards of `retry_task`: one of them gave this error.
abbrev pub RetryFails : String → Stage → Dict → Error → Type 0
RetryFails id a task e =
    (validate_identifier id "task_id" ≡ err e)
    ⊎ (require (elem a.status ("blocked" ∷ "rejected" ∷ []))
          (value_error ("cannot retry task in status " <> a.status))
        ≡ err e)
    ⊎ (retries_of task ≡ err e)

retryable : (s : String) → elem s ("blocked" ∷ "rejected" ∷ []) ≡ true → str_eq s "open" ≡ false
retryable s h = elim (Bool-cases (str_eq s "blocked")) [
  | inl e ↦ rw ((eq_iff s "blocked").0 e) refl
  | inr e ↦ let rejected : s ≡ "rejected" = ground (arith, eq_iff s "rejected") in rw rejected refl
]

module _ ⦃env : Env⦄ (id name : String) (a : Stage) (w : World)
    (named : json_file_name id ≡ ok name) (t : Tracks id name a w) where
  -- `retry_task` reopens a blocked or rejected task, with no holder and under its old token; where
  -- it raises, the error is that of a guard that the call does not pass, and no file and no row has
  -- changed.
  pub retry_task_refines :
      (reason : String)
      → Ends
          (λ _ w'.
            (elem a.status ("blocked" ∷ "rejected" ∷ []) ≡ true)
            × Tracks id name (unheld a "open") w')
          (λ e w'. Same w w' × RetryFails id a t.task e)
          (retry_task id reason w)
  unfolding retry_task retry_body
  retry_task_refines reason =
      Ends-lift _ _ w
        (λ _ _.
          Ends-bind _ _ _
            (Ends-transaction _ w (
              step _ _ (load_task_tracked id name a w t named) (
                Ends-lift _ _ w
                  (λ _ passed. step_now _ _ (
                    Ends-lift _ _ (tick w)
                      (λ count _.
                        Ends-weaken _
                          (store_transition-Ends id name a.status (unheld a "open") t.task _ _
                            (tick w) named (retryable a.status (require_passed _ _ passed)) refl
                            t.holds (retried-IsTask id a (stamp w) _ t.task t.fields))
                          (λ _ w' tracks. (require_passed _ _ passed, tracks)))
                      (λ e fails.
                        (record { files = refl; db = refl }, inr (inr (simp get-set at fails))))))
                  (λ e fails. (record { files = refl; db = refl }, inr (inl fails))))))
            (λ _ w' done. Ends-pure _ _ done))
        (λ e fails. (Same-refl w, inl fails))
