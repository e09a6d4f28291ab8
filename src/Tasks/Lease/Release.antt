-- ===== src/Tasks/Lease/Release.antt =====
-- `release_task` on a tracked task.
use collective_capability_ru.Prelude.{
  String, ◌≡◌, ◌⊎◌, inl, inr, refl, Bool, true, false, not, Option, none, some, Bool-cases, arith,
  eq_iff, str_eq, elem, and_right,
}
use collective_capability_ru.Prelude.Int.{ℤ, eqb_ℤ→eq}
use collective_capability_ru.Result.{file_not_found, Error, ok, err, require_passed}
use collective_capability_ru.Json.{Dict, null, str, obj}
use collective_capability_ru.Json.Fields.{get, set, get-set}
use collective_capability_ru.Json.Python.{is_opt_str}
use collective_capability_ru.Env.{Env}
use collective_capability_ru.Exec.{World}
use collective_capability_ru.Exec.Laws.{
  Ends, Same, Same-refl, Same-rollback, Ends-weaken, Ends-weaken_err, Ends-pure, Ends-bind, Ends-if,
  Ends-lift, Ends-transaction, step_lift,
}
use collective_capability_ru.Exec.Steps.{
  step_now, step_missing, step_read, step_write, step_unlink, to_dict-obj,
}
use collective_capability_ru.Time.Expiry.{now_of}
use collective_capability_ru.Ids.{json_file_name}
use collective_capability_ru.Residuals.Building.{build_residual-Same}
use collective_capability_ru.Tasks.{task_file, lease_of, token_of, statuses}
use collective_capability_ru.Tasks.Machine.{Stage, unheld}
use collective_capability_ru.Tasks.Tracking.{
  Holds, Holds-self, Holds-other, Holds-moved, IsTask, IsStorable, Tracks, Tracks-Same,
  relet-IsTask, restamp-key,
}
use collective_capability_ru.Tasks.Effects.{task_path_named, rows_end}
use collective_capability_ru.Tasks.Lease.Terms.{lapse, lease_expired-Ends}
use collective_capability_ru.Tasks.Lease.{
  status_after_release, foreign_fence, require_release, release_leased, released, blocked_residual,
  with_residual, release_task,
}

pub status_after_cases :
    (reason : String)
    → (status_after_release reason ≡ "open") ⊎ (status_after_release reason ≡ "blocked")
unfolding status_after_release
status_after_cases reason = ground arith

status_after_known :
    (reason : String)
    → (elem (status_after_release reason) statuses ≡ true)
      × (str_eq "leased" (status_after_release reason) ≡ false)
status_after_known reason = elim (status_after_cases reason) [
  | inl e ↦ rw e (refl, refl)
  | inr e ↦ rw e (refl, refl)
]

-- What lets a call release a lease that is not over: it is the holder's, under the current token.
abbrev pub IsReleaser : Option String → Option ℤ → Stage → Type 0
IsReleaser agent none a = ⊥
IsReleaser agent (some token) a = (is_opt_str a.holder agent ≡ true) × (a.token ≡ token)

fence_fits : (b : Bool) → not (not b) ≡ true → b ≡ true
fence_fits b h = ground arith

module _ (lease : Dict) (agent : Option String) (a : Stage)
    (held_by : get "leased_by" lease ≡ a.holder) (fenced : token_of lease ≡ ok a.token) where
  fence_passed :
      (token : Option ℤ)
      → require_release lease agent token false ≡ ok tt
      → IsReleaser agent token a
  unfolding require_release foreign_fence
  fence_passed none h = elim (Bool-cases (is_opt_str (get "leased_by" lease) agent)) [
    | inl o ↦ cc (rw (o, fenced) at h)
    | inr o ↦ cc (rw o at h)
  ]
  fence_passed (some token) h = elim (Bool-cases (is_opt_str (get "leased_by" lease) agent)) [
    | inl o ↦ (
      rw held_by at o,
      eqb_ℤ→eq a.token token
          (and_right true _ (fence_fits _ (require_passed _ _ (rw (o, fenced) at h)))),
    )
    | inr o ↦ cc (rw o at h)
  ]

module _ ⦃env : Env⦄ (id name reason : String) (agent : Option String) (token : Option ℤ)
    (a : Stage) (w : World) (named : json_file_name id ≡ ok name) (t : Tracks id name a w) where
  -- How a call of `release_task` may return.
  abbrev pub Released : String → World → Type 0
  Released status w' =
      (a.status ≡ "leased")
      × (status ≡ status_after_release reason)
      × ((lapse (lease_of t.task) 1 (now_of w) ≡ ok true) ⊎ IsReleaser agent token a)
      × Tracks id name (unheld a (status_after_release reason)) w'

  -- Why it may raise: the task is not leased, its stored lease cannot be read, or the call does not
  -- pass the guard.
  abbrev pub ReleaseFails : Error → Type 0
  ReleaseFails e =
      ((e ≡ file_not_found id) × (str_eq a.status "leased" ≡ false))
      ⊎ (lapse (lease_of t.task) 1 (now_of w) ≡ err e)
      ⊎ ((expired : Bool) × (lapse (lease_of t.task) 1 (now_of w) ≡ ok expired)
          × (require_release (lease_of t.task) agent token expired ≡ err e))

  allowed :
      (expired : Bool)
      → lapse (lease_of t.task) 1 (now_of w) ≡ ok expired
      → require_release (lease_of t.task) agent token expired ≡ ok tt
      → (lapse (lease_of t.task) 1 (now_of w) ≡ ok true) ⊎ IsReleaser agent token a
  allowed true over h = inl over
  allowed false over h =
      inr (fence_passed (lease_of t.task) agent a t.fields.held_by t.fields.fenced token h)

  abbrev cleared_lease : Dict
  cleared_lease = set "leased_at" null (set "leased_by" null (lease_of t.task))

  cleared_token : token_of cleared_lease ≡ ok a.token
  cleared_token = simp get-set t.fields.fenced

  cleared-IsStorable : IsStorable cleared_lease a.token
  cleared-IsStorable = record {
    by = simp get-set;
    at = simp get-set;
    minutes = simp get-set t.fields.storable.minutes;
    small = t.fields.storable.small;
    beat = simp get-set t.fields.storable.beat;
    key = simp get-set t.fields.storable.key;
  }

  released-IsTask :
      (at : String)
      → IsTask id (some null) a.token (
          set "lease"
            (obj cleared_lease)
            (set "updated_at" (str at) (set "status" (str (status_after_release reason)) t.task)))
  released-IsTask at =
      relet-IsTask id _ _ t.fields.required _ _ (restamp-key id _ at t.task t.fields.key)
        (simp get-set) (simp get-set t.fields.flag) cleared_token cleared-IsStorable

  -- A task that is leased, when the guard has let the call pass.
  Released-passed :
      (is_leased : a.status ≡ "leased") (w' : World)
      → Same w w'
      → (lapse (lease_of t.task) 1 (now_of w) ≡ ok true) ⊎ IsReleaser agent token a
      → Ends
          (λ (status, task) w'. Released status w')
          (λ e w'. Same w w' × ReleaseFails e)
          (release_leased id reason (task_file "leased" name) t.task w')
  unfolding release_leased
  Released-passed is_leased w' same may = step_now _ _ (
      step_lift _ _ t.fields.copies (
        step_lift _ _ (task_path_named id name named (status_after_release reason)) (
          step_write _ _ _ _ (
            step_unlink _ _ _ (
              Ends-weaken _
                (rows_end id name (unheld a (status_after_release reason)) _ _ _ _ _ _
                  (Holds-moved name "leased" (status_after_release reason) t.task _ w'.files
                    (status_after_known reason).1 holds)
                  (status_after_known reason).0 (released-IsTask _) cleared_token
                  cleared-IsStorable)
                (λ r w'' (e, held, tracks). rw e (is_leased, refl, may, tracks)))))))
    where
      holds : Holds name "leased" t.task w'.files
      holds = rw same.files (rw is_leased at t.holds)

  released-Ends :
      Ends
        (λ (status, task) w'. Released status w')
        (λ e w'. Same w w' × ReleaseFails e)
        (released id reason agent token w)
  unfolding released
  released-Ends = elim (Bool-cases (str_eq a.status "leased")) [
    | inl e ↦
        let is_leased : a.status ≡ "leased" = (eq_iff a.status "leased").0 e in
        step_lift _ _ (task_path_named id name named "leased") (
          step_read _ _ _ _ (Holds-self name "leased" t.task w.files (rw is_leased at t.holds)) (
            step_lift _ _ (to_dict-obj _ _) (
              Ends-bind _ _ _
                (Ends-weaken_err _ (lease_expired-Ends _ 1 w) (λ e w' h. (h.0, inr (inl h.1))))
                (λ expired w' h.
                  Ends-lift _ _ w'
                    (λ passed ok. Released-passed is_leased w' h.0 (allowed expired h.1 ok))
                    (λ e fails. (h.0, inr (inr (expired, h.1, fails))))))))
    | inr e ↦ step_lift _ _ (task_path_named id name named "leased") (
        step_missing _ _ _ _ (Holds-other name a.status "leased" t.task w.files e t.holds)
          (Same-refl w, inl (refl, e)))
  ]

  with_residual-Ends :
      (status : String) (task : Dict) (w' : World)
      → Ends
          (λ reply w''. Same w' w'' × (reply.status_after ≡ status))
          (λ _ w''. ⊥)
          (with_residual id reason status task w')
  unfolding with_residual blocked_residual
  with_residual-Ends status task w' =
      Ends-if (str_eq status "blocked") _ _ w'
        (λ _. Ends-bind _ _ _ (build_residual-Same _ w') (λ r w'' same. Ends-pure _ _ (same, refl)))
        (λ _. Ends-pure _ _ (Same-refl w', refl))

  -- `release_task` ends the lease of a leased task, with no holder and under its old token, where
  -- the lease is over, or the caller holds it and gives the current token; the task goes back to
  -- the open queue, or to the blocked one if the reason speaks of a block; where it raises, no file
  -- and no row has changed, and the task is not leased, its stored lease cannot be read, or the call
  -- does not pass the guard.
  pub release_task_refines :
      Ends
        (λ reply w'. Released reply.status_after w')
        (λ e w'. Same w w' × ReleaseFails e)
        (release_task id reason agent token w)
  unfolding release_task
  release_task_refines =
      Ends-bind _ _ _
        (Ends-transaction _ w
          (Ends-weaken_err _ released-Ends (λ e w' h. (Same-rollback h.0, h.1))))
        (λ (status, task) w' h.
          Ends-weaken _
            (Ends-weaken_err _ (with_residual-Ends status task w') (λ _ _ never. elim never [ ]))
            (λ reply w'' (same, e). rw e (
              h.0,
              h.1,
              h.2,
              Tracks-Same id name (unheld a (status_after_release reason)) w' w'' same h.3,
            )))
