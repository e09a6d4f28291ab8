-- ===== src/Tasks/Lease/Refines.antt =====
-- `lease_task` on a tracked task: which stage it leaves the task in, branch by branch.
use collective_capability_ru.Prelude.{
  ℕ, String, ◌≡◌, ◌⊎◌, inl, inr, refl, ap, subst, Bool-cases, ◌∙◌, Bool, true, false, not, ◌&&◌,
  Option, none, some, arith, eq_iff, str_eq, if◌then◌else◌,
}
use collective_capability_ru.Prelude.Map.{string_eq, file_path_eq, lookup}
use collective_capability_ru.Result.{err, file_not_found, overflow_error, Error, ok}
use collective_capability_ru.Json.{Dict, int, str, obj}
use collective_capability_ru.Json.Fields.{get, get-set}
use collective_capability_ru.Json.Python.{is_str, as_dict}
use collective_capability_ru.Env.{Env}
use collective_capability_ru.Exec.{World, pure, ◌>>=◌, ◌>>◌}
use collective_capability_ru.Exec.Columns.{bindable}
use collective_capability_ru.Prelude.Int.{pos}
use collective_capability_ru.Exec.Laws.{
  Ends, Same, Same-refl, Same-rollback, Ends-weaken, Ends-pure, Ends-bind, Ends-if, Ends-lift,
  Ends-transaction, Ends-raise, Ends-weaken_err, step_lift, step_gets,
}
use collective_capability_ru.Exec.Steps.{step_now, step_read, step_write, step_unlink, to_dict-obj}
use collective_capability_ru.Time.{Ttl, parse_ttl_minutes}
use collective_capability_ru.Time.Expiry.{now_of}
use collective_capability_ru.Ids.{json_file_name}
use collective_capability_ru.Tasks.{task_file, lease_of, token_of, record_lease, record_outbox}
use collective_capability_ru.Tasks.Machine.{Stage, next_token}
use collective_capability_ru.Tasks.Tracking.{
  Holds, Holds-self, Holds-exists, Holds-moved, Holds-written, IsTask, IsStorable, Tracks,
  Tracks-Same,
}
use collective_capability_ru.Tasks.Effects.{task_path_named, rows_end, record_lease-Overflows}
use collective_capability_ru.Tasks.Lease.Terms.{
  lapse, fits_row, lease_expired-Ends, granted_stage, next_token_tracked, granted_token,
  reclaimed_token, granted-IsTask, reclaimed-IsTask,
}
use collective_capability_ru.Tasks.Lease.{
  LeaseReply, granted, active, lease_open, reclaim, lease_leased, lease_body, granted_or_missing,
  lease_task,
}

module _ ⦃env : Env⦄ where
  -- An agent may take a task that is open, or a leased one whose lease is over, or is its own.
  abbrev pub MayTake : ℕ → Dict → Stage → String → World → Bool → Type 0
  MayTake ttl old a agent w reclaimed =
      (a.status ≡ "open")
      ⊎ (a.status ≡ "leased")
        × (lapse (lease_of old) ttl (now_of w) ≡ ok reclaimed)
        × ((reclaimed ≡ true) ⊎ (is_str a.holder agent ≡ true))

  -- How a call of `lease_task` by `agent` may end, from a task at the stage `a`.
  abbrev pub LeaseOutcome :
      String → String → ℕ → Dict → Stage → String → World → LeaseReply → World → Type 0
  LeaseOutcome id name ttl old a agent w (granted reclaimed before task) w' =
      (lookup (task_file "leased" name) w'.files ≡ some (obj task))
      × Tracks id name (granted_stage a agent) w'
      × MayTake ttl old a agent w reclaimed
  LeaseOutcome id name ttl old a agent w (active holder task) w' =
      Same w w'
      × (a.status ≡ "leased")
      × (holder ≡ a.holder)
      × (is_str a.holder agent ≡ false)
      × (lapse (lease_of old) ttl (now_of w) ≡ ok false)

module _ ⦃env : Env⦄ where
  -- An exception has changed no file and no row: the task is in neither queue, or its stored lease
  -- cannot be read.
  abbrev pub Unchanged : String → ℕ → Dict → Stage → World → Error → World → Type 0
  Unchanged id ttl old a w e w' =
      Same w w'
      × ((e ≡ file_not_found id)
            × (str_eq a.status "open" ≡ false)
            × (str_eq a.status "leased" ≡ false)
          ⊎ (lapse (lease_of old) ttl (now_of w) ≡ err e))

  -- Or the row could not be stored, since it does not hold the minutes or the token; the file is in
  -- the leased queue with the new token by then, and the rows are as they were.
  pub record Torn (id name agent : String) (ttl : ℕ) (old : Dict) (a : Stage) (w : World)
      (e : Error) (w' : World) : Type 0 where
    pub too_large : fits_row ttl (next_token a.token) ≡ false
    pub raised : e ≡ overflow_error
    pub rows : w'.db ≡ w.db
    pub allowed : (reclaimed : Bool) × MayTake ttl old a agent w reclaimed
    pub task : Dict
    pub moved : Holds name "leased" task w'.files
    pub fenced : token_of (lease_of task) ≡ ok (next_token a.token)

  abbrev pub LeaseFails :
      String → String → String → ℕ → Dict → Stage → World → Error → World → Type 0
  LeaseFails id name agent ttl old a w e w' =
      Unchanged id ttl old a w e w' ⊎ Torn id name agent ttl old a w e w'

  -- The rows of a grant, or the exception where the lease's row cannot hold it.
  grant_end :
      (id name agent : String) (ttl : ℕ) (old : Dict) (a : Stage) (w₀ : World) (reclaimed : Bool)
      (before event : String) (task lease : Dict) (w : World)
      → w.db ≡ w₀.db
      → MayTake ttl old a agent w₀ reclaimed
      → Holds name "leased" task w.files
      → get "lease" task ≡ some (obj lease)
      → token_of lease ≡ ok (next_token a.token)
      → bindable (get "leased_by" lease) ≡ true
      → bindable (get "leased_at" lease) ≡ true
      → get "ttl_minutes" lease ≡ some (int (pos ttl))
      → (fits_row ttl (next_token a.token) ≡ true
          → IsTask id (some (str agent)) (next_token a.token) task)
      → Ends
          (λ reply w'. LeaseOutcome id name ttl old a agent w₀ reply w')
          (λ e w'. LeaseFails id name agent ttl old a w₀ e w')
          ((record_lease id lease "leased"
              >> (record_outbox event id task >> pure (granted reclaimed before task)))
            w)
  grant_end id name agent ttl old a w₀ reclaimed before event task lease w rows allowed holds leased
        fenced by at minutes fields =
      elim (Bool-cases (fits_row ttl (next_token a.token))) [
        | inl fits ↦
            Ends-weaken _
              (rows_end id name (granted_stage a agent) task lease "leased" event _ w holds refl
                (fields fits) fenced
                (subst (λ l. IsStorable l (next_token a.token)) (ap as_dict leased)
                  (fields fits).storable))
              (λ r w' (same, held, tracks).
                rw same (Holds-self name "leased" _ _ held, tracks, allowed))
        | inr large ↦
            Ends-bind _ _ _
              (record_lease-Overflows {P = λ _ _. ⊥} id lease "leased" (pos ttl)
                (next_token a.token) w fenced by at minutes large
                (inr (record {
                  too_large = large;
                  raised = refl;
                  rows = rows;
                  allowed = (reclaimed, allowed);
                  task = task;
                  moved = holds;
                  fenced = rw leased fenced;
                })))
              (λ _ _ never. elim never [ ])
      ]

module _ ⦃env : Env⦄ (id name agent : String) (ttl : ℕ) (a : Stage) (w : World)
    (named : json_file_name id ≡ ok name) (t : Tracks id name a w) where
  lease_open-Ends :
      a.status ≡ "open"
      → Ends
          (λ reply w'. LeaseOutcome id name ttl t.task a agent w reply w')
          (λ e w'. LeaseFails id name agent ttl t.task a w e w')
          (lease_open id ttl agent w)
  unfolding lease_open
  lease_open-Ends is_open = step_lift _ _ (task_path_named id name named "open") (
      step_lift _ _ (task_path_named id name named "leased") (
        step_read _ _ _ _ (Holds-self name "open" t.task w.files holds) (
          step_lift _ _ (to_dict-obj _ _) (
            step_now _ _ (
              step_lift _ _ t.fields.copies (
                step_lift _ _ t.fields.flag (
                  step_gets _ _ (next_token_tracked id name agent a w t) (
                    step_now _ _ (
                      step_write _ _ _ _ (
                        step_unlink _ _ _ (
                          grant_end id name agent ttl t.task a w false _ _ _ _ _ refl (inl is_open)
                            (Holds-moved name "open" "leased" t.task _ w.files refl holds)
                            (simp get-set) (granted_token _ _ _ _ _ _) (simp get-set) (simp get-set)
                            (simp get-set) (granted-IsTask id name agent a w t ttl _ _))))))))))))
    where
      holds : Holds name "open" t.task w.files
      holds = rw is_open at t.holds

module _ ⦃env : Env⦄ where
  -- The same, of the branches inside the transaction: no reply for a task in another queue.
  abbrev Granting :
      String → String → ℕ → Dict → Stage → String → World → Option LeaseReply → World → Type 0
  Granting id name ttl old a agent w none w' =
      (w' ≡ w) × (str_eq a.status "open" ≡ false) × (str_eq a.status "leased" ≡ false)
  Granting id name ttl old a agent w (some r) w' = LeaseOutcome id name ttl old a agent w r w'

module _ ⦃env : Env⦄ (id name agent : String) (ttl : ℕ) (a : Stage) (w₀ w : World)
    (named : json_file_name id ≡ ok name) (t : Tracks id name a w) (is_leased : a.status ≡ "leased")
    (rows : w.db ≡ w₀.db) where
  reclaim-Ends :
      (expired : Bool)
      → MayTake ttl t.task a agent w₀ expired
      → Ends
          (λ reply w'. LeaseOutcome id name ttl t.task a agent w₀ reply w')
          (λ e w'. LeaseFails id name agent ttl t.task a w₀ e w')
          (reclaim id ttl agent expired t.task (lease_of t.task) w)
  unfolding reclaim
  reclaim-Ends expired allowed = step_lift _ _ (task_path_named id name named "leased") (
      step_now _ _ (
        step_gets _ _ (next_token_tracked id name agent a w t) (
          step_now _ _ (
            step_write _ _ _ _ (
              grant_end id name agent ttl t.task a w₀ expired _ _ _ _ _ rows allowed
                (Holds-written name "leased" t.task _ w.files holds) (simp get-set)
                (reclaimed_token _ _ _ true _ _) (simp get-set) (simp get-set) (simp get-set)
                (reclaimed-IsTask id name agent a w t ttl _ _))))))
    where
      holds : Holds name "leased" t.task w.files
      holds = rw is_leased at t.holds

module _ ⦃env : Env⦄ (id name agent : String) (ttl : ℕ) (a : Stage) (w : World)
    (named : json_file_name id ≡ ok name) (t : Tracks id name a w) where
  -- The holder's lease decides: an active lease of another agent is refused.
  leased_choice :
      (expired : Bool) (w' : World)
      → a.status ≡ "leased"
      → Same w w'
      → lapse (lease_of t.task) ttl (now_of w) ≡ ok expired
      → Ends
          (λ reply w''. LeaseOutcome id name ttl t.task a agent w reply w'')
          (λ e w'. LeaseFails id name agent ttl t.task a w e w')
          ((if not expired && not (is_str (get "leased_by" (lease_of t.task)) agent)
              then pure (active (get "leased_by" (lease_of t.task)) t.task)
              else reclaim id ttl agent expired t.task (lease_of t.task))
            w')
  unfolding Tracks-Same
  leased_choice expired w' is_leased same over = rw t.fields.held_by (
      Ends-if (not expired && not (is_str a.holder agent)) _ _ w'
        (λ refused.
          Ends-pure _ _ (same, is_leased, refl, ground arith, over ∙ ap ok (ground arith)))
        (λ allowed.
          reclaim-Ends id name agent ttl a w w' named (Tracks-Same id name a w w' same t) is_leased
            same.db expired (inr (is_leased, over, ground arith))))

  lease_leased-Ends :
      a.status ≡ "leased"
      → Ends
          (λ reply w'. LeaseOutcome id name ttl t.task a agent w reply w')
          (λ e w'. LeaseFails id name agent ttl t.task a w e w')
          (lease_leased id ttl agent w)
  unfolding lease_leased
  lease_leased-Ends is_leased = step_lift _ _ (task_path_named id name named "leased") (
      step_read _ _ _ _ (Holds-self name "leased" t.task w.files (rw is_leased at t.holds)) (
        step_lift _ _ (to_dict-obj _ _) (
          Ends-bind _ _ _
            (Ends-weaken_err _ (lease_expired-Ends _ ttl w) (λ e w' h. inl (h.0, inr h.1)))
            (λ expired w' h. leased_choice expired w' is_leased h.0 h.1))))

  open_or_leased :
      Ends
        (λ reply w'. Granting id name ttl t.task a agent w reply w')
        (λ e w'. LeaseFails id name agent ttl t.task a w e w')
        ((if str_eq a.status "open"
            then (lease_open id ttl agent >>= λ r. pure (some r))
            else if str_eq a.status "leased"
            then (lease_leased id ttl agent >>= λ r. pure (some r))
            else pure none)
          w)
  open_or_leased =
      Ends-if (str_eq a.status "open") _ _ w
        (λ e.
          let is_open : a.status ≡ "open" = (eq_iff a.status "open").0 e in
          Ends-bind _ _ _ (lease_open-Ends id name agent ttl a w named t is_open)
            (λ r w' h. Ends-pure _ _ h))
        (λ not_open.
          Ends-if (str_eq a.status "leased") _ _ w
            (λ e.
              Ends-bind _ _ _ (lease_leased-Ends ((eq_iff a.status "leased").0 e))
                (λ r w' h. Ends-pure _ _ h))
            (λ not_leased. Ends-pure _ _ (refl, not_open, not_leased)))

  lease_body-Ends :
      Ends
        (λ reply w'. Granting id name ttl t.task a agent w reply w')
        (λ e w'. LeaseFails id name agent ttl t.task a w e w')
        (lease_body id ttl agent w)
  unfolding lease_body
  lease_body-Ends = step_lift _ _ (task_path_named id name named "open") (
      step_lift _ _ (task_path_named id name named "leased") (
        step_gets _ _ (Holds-exists name a.status t.task w "open" t.holds)
          (step_gets _ _ (Holds-exists name a.status t.task w "leased" t.holds) open_or_leased)))

  answered :
      (found : Option LeaseReply) (w' : World)
      → Granting id name ttl t.task a agent w found w'
      → Ends
          (λ reply w'. LeaseOutcome id name ttl t.task a agent w reply w')
          (λ e w'. LeaseFails id name agent ttl t.task a w e w')
          (granted_or_missing id found w')
  unfolding granted_or_missing
  answered none w' h = Ends-raise _ _ (inl (rw h.0 (Same-refl w, inl (refl, h.1, h.2))))
  answered (some r) w' h = Ends-pure _ _ h

-- What a transaction leaves where it raises.
rolled_back :
    ⦃env : Env⦄ (id name agent : String) (ttl : ℕ) (old : Dict) (a : Stage) (w w' : World)
    (e : Error)
    → LeaseFails id name agent ttl old a w e w'
    → LeaseFails id name agent ttl old a w e (record w' { db = w.db })
rolled_back id name agent ttl old a w w' e (inl h) = inl (Same-rollback h.0, h.1)
rolled_back id name agent ttl old a w w' e (inr h) = inr (record {
  too_large = h.too_large;
  raised = h.raised;
  rows = refl;
  allowed = h.allowed;
  task = h.task;
  moved = h.moved;
  fenced = h.fenced;
})

pub lease_task_refines :
    ⦃env : Env⦄ (id name agent : String) (ttl : Ttl) (a : Stage) (w : World)
    → json_file_name id ≡ ok name
    → (t : Tracks id name a w)
    → Ends
        (λ reply w'.
          (n : ℕ) × (parse_ttl_minutes ttl ≡ ok n)
          × LeaseOutcome id name n t.task a agent w reply w')
        (λ e w'.
          Same w w' × (parse_ttl_minutes ttl ≡ err e)
          ⊎ ((n : ℕ) × (parse_ttl_minutes ttl ≡ ok n) × LeaseFails id name agent n t.task a w e w'))
        (lease_task id ttl agent w)
unfolding lease_task
lease_task_refines id name agent ttl a w named t =
    Ends-lift _ _ w
      (λ minutes parsed.
        Ends-bind _ _ _
          (Ends-transaction _ w (
            Ends-weaken_err _ (lease_body-Ends id name agent minutes a w named t) (λ e w' h.
              inr (minutes, parsed, rolled_back id name agent minutes t.task a w w' e h))))
          (λ found w' h.
            Ends-weaken _
              (Ends-weaken_err _ (answered id name agent minutes a w named t found w' h)
                (λ e w'' h. inr (minutes, parsed, h)))
              (λ reply w'' outcome. (minutes, parsed, outcome))))
      (λ e fails. inl (Same-refl w, fails))
