-- ===== src/Tasks/Lifecycle/Cancel.antt =====
-- `fail_task` and `cancel_task` on a tracked task.
use collective_capability_ru.Prelude.{
  String, ◌≡◌, ◌⊎◌, inl, inr, refl, false, Option, none, some, arith, eq_iff, str_eq, Bool-cases,
}
use collective_capability_ru.Prelude.Int.{ℤ}
use collective_capability_ru.Prelude.Map.{string_eq, file_path_eq}
use collective_capability_ru.Result.{ok, err}
use collective_capability_ru.Env.{Env}
use collective_capability_ru.Exec.{World}
use collective_capability_ru.Exec.Laws.{
  Ends, Same, Same-refl, Ends-weaken, Ends-pure, Ends-bind, Ends-lift, Ends-transaction, step,
}
use collective_capability_ru.Exec.Steps.{tick, step_now}
use collective_capability_ru.Ids.{json_file_name, validate_identifier}
use collective_capability_ru.Tasks.Machine.{Stage, at_status}
use collective_capability_ru.Tasks.Tracking.{Tracks, Tracks-Same}
use collective_capability_ru.Tasks.Effects.{load_task_tracked}
use collective_capability_ru.Residuals.Building.{build_residual-Same}
use collective_capability_ru.Tasks.Lifecycle.{
  require_cancellable, fail_task, cancel_body, cancel_task,
}
use collective_capability_ru.Tasks.Lifecycle.Moves.{
  Refused, IsHolder, IsHolder-of, stamped-IsTask, store_transition-Ends, transition_from_lease-Ends,
}

-- A task may be cancelled while it is open, or by the holder of its lease.
abbrev pub IsCancellable : String → Stage → Option ℤ → Type 0
IsCancellable agent a none = a.status ≡ "open"
IsCancellable agent a (some token) = (a.status ≡ "open") ⊎ IsHolder agent token a

module _ ⦃env : Env⦄ (id name agent : String) (a : Stage) (w : World)
    (named : json_file_name id ≡ ok name) (t : Tracks id name a w) where
  -- `fail_task` blocks the task of a caller that holds its lease under the current token, and
  -- leaves the token as it is; where it raises, the error is that of the guard that the call does
  -- not pass, and no file and no row has changed.
  pub fail_task_refines :
      (token : ℤ) (reason : String)
      → Ends
          (λ _ w'. IsHolder agent token a × Tracks id name (at_status a "blocked") w')
          (λ e w'. Refused id agent token a t.task w e w')
          (fail_task id agent token reason w)
  unfolding fail_task
  fail_task_refines token reason =
      Ends-bind _ _ _
        (transition_from_lease-Ends id name agent token a w named t "blocked" "task.fail" reason
          refl refl)
        (λ _ w' moved. Ends-bind _ _ _ (build_residual-Same _ w') (λ _ w'' same.
          Ends-pure _ _ (moved.0, Tracks-Same id name (at_status a "blocked") w' w'' same moved.1)))

  cancellable :
      (token : Option ℤ)
      → require_cancellable t.task a.status agent token ≡ ok tt
      → IsCancellable agent a token × (str_eq a.status "rejected" ≡ false)
  unfolding require_cancellable
  cancellable none h =
      let is_open : a.status ≡ "open" = ground (arith, eq_iff a.status "open") in
      (is_open, rw is_open)
  cancellable (some token) h = elim (Bool-cases (str_eq a.status "leased")) [
    | inl e ↦
        let held = IsHolder-of id name agent "rejected" token a w t (rw e at h) in
        (inr held, rw held.leased)
    | inr e ↦
        let is_open : a.status ≡ "open" = ground (arith, eq_iff a.status "open") in
        (inl is_open, rw is_open)
  ]

  -- `cancel_task` rejects a task that is open, or whose lease the caller holds under the token
  -- that it gives; where it raises, the error is that of the guard that the call does not pass, and
  -- no file and no row has changed.
  pub cancel_task_refines :
      (reason : String) (token : Option ℤ)
      → Ends
          (λ _ w'. IsCancellable agent a token × Tracks id name (at_status a "rejected") w')
          (λ e w'.
            Same w w'
            × ((validate_identifier id "task_id" ≡ err e)
                ⊎ (require_cancellable t.task a.status agent token ≡ err e)))
          (cancel_task id agent reason token w)
  unfolding cancel_task cancel_body
  cancel_task_refines reason token =
      Ends-lift _ _ w
        (λ _ _.
          Ends-bind _ _ _
            (Ends-transaction _ w (
              step _ _ (load_task_tracked id name a w t named) (
                Ends-lift _ _ w
                  (λ _ passed. step_now _ _ (
                    Ends-weaken _
                      (store_transition-Ends id name a.status (at_status a "rejected") t.task _ _
                        (tick w) named (cancellable token passed).1 refl t.holds
                        (stamped-IsTask id a "rejected" _ _ t.task t.fields))
                      (λ _ w' tracks. ((cancellable token passed).0, tracks))))
                  (λ e fails. (record { files = refl; db = refl }, inr fails)))))
            (λ _ w' done. Ends-pure _ _ done))
        (λ e fails. (Same-refl w, inl fails))
