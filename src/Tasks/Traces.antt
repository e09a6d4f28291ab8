-- ===== src/Tasks/Traces.antt =====
-- Any sequence of calls of tasks/lease.py and tasks/lifecycle.py on one task, whether each returns
-- or raises.
use collective_capability_ru.Prelude.{
  ℕ, String, ◌≡◌, ◌≢◌, ◌∙◌, subst, some_inj, ◌⊎◌, inl, inr, refl, true, Option, none, some,
  Bool-cases, List, [], ◌∷◌, arith, eq_iff, elem, Bool, false, ◌&&◌, length, suc, and_left,
  and_right,
}
use collective_capability_ru.Prelude.Int.{ℤ, ◌≤ℤ◌, pos, ◌+ℤ◌}
use collective_capability_ru.Result.{ok, err, Result, Error}
use collective_capability_ru.Env.{Env}
use collective_capability_ru.Exec.{World}
use collective_capability_ru.Exec.Columns.{is_int64, is_int64_between}
use collective_capability_ru.Exec.Laws.{Ends-state, Same}
use collective_capability_ru.Time.{Ttl, parse_ttl_minutes}
use collective_capability_ru.Ids.{json_file_name}
use collective_capability_ru.Tasks.Machine.{
  Stage, Step, grant, let_go, finish, reject, reopen, Steps, Steps-trans, stay, more, Steps-token,
  Steps-submitted, at_status, next_token, next_token_le, Step-next, submitted-not_movable,
}
use collective_capability_ru.Tasks.Tracking.{Tracks, Tracks-Same, row_token}
use collective_capability_ru.Tasks.Lease.{LeaseReply, granted, active, lease_task, release_task}
use collective_capability_ru.Tasks.Lease.Refines.{
  LeaseOutcome, LeaseFails, MayTake, lease_task_refines,
}
use collective_capability_ru.Tasks.Lease.Terms.{fits_row}
use collective_capability_ru.Tasks.Lease.Release.{status_after_cases, release_task_refines}
use collective_capability_ru.Tasks.Lifecycle.{
  parse_optional_ttl, Reply, heartbeat_task, complete_task, fail_task, cancel_task, retry_task,
}
use collective_capability_ru.Tasks.Lifecycle.Heartbeat.{
  minutes_fit, HeartbeatFails, Overrun, heartbeat_task_refines,
}
use collective_capability_ru.Tasks.Lifecycle.Complete.{CompleteOutcome, complete_task_refines}
use collective_capability_ru.Tasks.Lifecycle.Cancel.{
  IsCancellable, fail_task_refines, cancel_task_refines,
}
use collective_capability_ru.Tasks.Lifecycle.Retry.{retry_task_refines}

-- A call, with all its arguments but the task.
pub data Call : Type 0 where
  lease : (ttl : Ttl) (agent : String) → Call
  release : (reason : String) (agent : Option String) (token : Option ℤ) → Call
  heartbeat : (agent : String) (token : ℤ) (ttl : Option Ttl) → Call
  complete : (agent : String) (token : ℤ) (output_refs : List String) (summary key : String) → Call
  fail : (agent : String) (token : ℤ) (reason : String) → Call
  cancel : (agent reason : String) (token : Option ℤ) → Call
  retry : (reason : String) → Call

-- The duration that a call gives, where it can be read, is a number of minutes of 64 bits.
abbrev pub read_fits : Result ℕ → Bool
read_fits (ok n) = is_int64 (pos n)
read_fits (err e) = true

abbrev pub optional_fits : Result (Option ℕ) → Bool
optional_fits (ok minutes) = minutes_fit minutes
optional_fits (err e) = true

abbrev pub call_fits : Call → Bool
call_fits (lease ttl agent) = read_fits (parse_ttl_minutes ttl)
call_fits (heartbeat agent token ttl) = optional_fits (parse_optional_ttl ttl)
call_fits _ = true

abbrev pub calls_fit : List Call → Bool
calls_fit [] = true
calls_fit (c ∷ cs) = call_fits c && calls_fit cs

-- A call whose lease row cannot be stored at a token.
abbrev Overflows : Call → ℤ → Type 0
Overflows (lease ttl agent) t =
    (n : ℕ) × (parse_ttl_minutes ttl ≡ ok n) × (fits_row n (next_token t) ≡ false)
Overflows (heartbeat agent token ttl) t =
    (minutes : Option ℕ) × (parse_optional_ttl ttl ≡ ok minutes) × (minutes_fit minutes ≡ false)
Overflows _ t = ⊥

true_not_false : (b : Bool) → b ≡ true → b ≡ false → ⊥
true_not_false b h k = cc

both_true : (b c : Bool) → b ≡ true → c ≡ true → (b && c) ≡ false → ⊥
both_true b c h k l = ground arith

fits-not-Overflows :
    (c : Call) (t : ℤ) → call_fits c ≡ true → is_int64 (next_token t) ≡ true → Overflows c t → ⊥
fits-not-Overflows (lease ttl agent) t fits small (n, e, large) =
    both_true _ _ (rw e at fits) small large
fits-not-Overflows (heartbeat agent token ttl) t fits small (minutes, e, large) =
    true_not_false _ (rw e at fits) large
fits-not-Overflows (release reason agent token) t fits small never = never
fits-not-Overflows (complete agent token refs summary key) t fits small never = never
fits-not-Overflows (fail agent token reason) t fits small never = never
fits-not-Overflows (cancel agent reason token) t fits small never = never
fits-not-Overflows (retry reason) t fits small never = never

-- What a stage leads to, or stays, in one call.
Moved : Stage → String → String → World → Type 0
Moved a id name w' = (b : Stage) × Steps a b × Tracks id name b w' × (b.token ≤ℤ next_token a.token)

-- Or the lease row could not be stored, and the rows are as they were.
Burst : Call → Stage → World → World → Type 0
Burst c a w w' =
    Overflows c a.token × (w'.db ≡ w.db) × ((a.status ≡ "open") ⊎ (a.status ≡ "leased"))

module _ ⦃env : Env⦄ where
  -- The state that a call leaves, whether it returns or raises.
  unfoldable pub perform : String → Call → World → World
  perform id (lease ttl agent) w = (lease_task id ttl agent w).1
  perform id (release reason agent token) w = (release_task id reason agent token w).1
  perform id (heartbeat agent token ttl) w = (heartbeat_task id agent token ttl w).1
  perform id (complete agent token refs summary key) w =
      (complete_task id agent token refs summary key w).1
  perform id (fail agent token reason) w = (fail_task id agent token reason w).1
  perform id (cancel agent reason token) w = (cancel_task id agent reason token w).1
  perform id (retry reason) w = (retry_task id reason w).1

  unfoldable pub perform_all : String → List Call → World → World
  unfolding perform
  perform_all id [] w = w
  perform_all id (c ∷ cs) w = perform_all id cs (perform id c w)

rested : (id name : String) (a : Stage) (w' : World) → Tracks id name a w' → Moved a id name w'
unfolding Moved
rested id name a w' tracks = (a, stay a refl, tracks, next_token_le a.token)

module _ (id name : String) (a : Stage) (w : World) (t : Tracks id name a w) where
  stayed : (w' : World) → Same w w' → Moved a id name w'
  unfolding Moved
  stayed w' same = (a, stay a refl, Tracks-Same id name a w w' same t, next_token_le a.token)

  stepped : (b : Stage) (w' : World) → Step a b → Tracks id name b w' → Moved a id name w'
  unfolding Moved
  stepped b w' s t' = (b, more a b (stay a refl) s, t', Step-next a b s)

module _ ⦃env : Env⦄ (id name : String) (a : Stage) (w : World)
    (named : json_file_name id ≡ ok name) (t : Tracks id name a w) where
  leased_moves :
      (n : ℕ) (agent : String) (reply : LeaseReply) (w' : World)
      → LeaseOutcome id name n t.task a agent w reply w'
      → Moved a id name w'
  leased_moves n agent (granted r before task) w' (held, tracks, inl e) =
      stepped id name a w t _ w' (grant agent _ (inl e) refl) tracks
  leased_moves n agent (granted r before task) w' (held, tracks, inr (e, _, _)) =
      stepped id name a w t _ w' (grant agent _ (inr e) refl) tracks
  leased_moves n agent (active holder task) w' h = stayed id name a w t w' h.0

  completed_moves :
      (agent key : String) (token : ℤ) (reply : Reply) (w' : World)
      → CompleteOutcome id name agent token key a w reply w'
      → Moved a id name w'
  completed_moves agent key token reply w' h = elim (Bool-cases reply.idempotent) [
    | inl e ↦ stayed id name a w t w' (rw e at h).0
    | inr e ↦
        let (held, tracks, _) = rw e at h in
        stepped id name a w t _ w' (finish "submitted" _ held.leased (inl refl) refl) tracks
  ]

  cancelled_moves :
      (agent : String) (token : Option ℤ) (w' : World)
      → IsCancellable agent a token
      → Tracks id name (at_status a "rejected") w'
      → Moved a id name w'
  cancelled_moves agent none w' e tracks = stepped id name a w t _ w' (reject _ (inl e) refl) tracks
  cancelled_moves agent (some token) w' (inl e) tracks =
      stepped id name a w t _ w' (reject _ (inl e) refl) tracks
  cancelled_moves agent (some token) w' (inr held) tracks =
      stepped id name a w t _ w' (reject _ (inr held.leased) refl) tracks

  retried_from :
      elem a.status ("blocked" ∷ "rejected" ∷ []) ≡ true
      → (a.status ≡ "blocked") ⊎ (a.status ≡ "rejected")
  retried_from h = ground (arith, eq_iff a.status "blocked", eq_iff a.status "rejected")

  taken_from :
      (n : ℕ) (agent : String)
      → ((reclaimed : Bool) × MayTake n t.task a agent w reclaimed)
      → (a.status ≡ "open") ⊎ (a.status ≡ "leased")
  taken_from n agent (reclaimed, inl e) = inl e
  taken_from n agent (reclaimed, inr (e, _, _)) = inr e

  lease_fails :
      (ttl : Ttl) (agent : String) (e : Error) (w' : World)
      → (Same w w' × (parse_ttl_minutes ttl ≡ err e)
          ⊎ ((n : ℕ) × (parse_ttl_minutes ttl ≡ ok n) × LeaseFails id name agent n t.task a w e w'))
      → Moved a id name w' ⊎ Burst (lease ttl agent) a w w'
  unfolding Burst
  lease_fails ttl agent e w' (inl h) = inl (stayed id name a w t w' h.0)
  lease_fails ttl agent e w' (inr (n, given, inl h)) = inl (stayed id name a w t w' h.0)
  lease_fails ttl agent e w' (inr (n, given, inr torn)) =
      inr ((n, given, torn.too_large), torn.rows, taken_from n agent torn.allowed)

  heartbeat_fails :
      (agent : String) (token : ℤ) (ttl : Option Ttl) (e : Error) (w' : World)
      → (Same w w' × HeartbeatFails id agent token ttl a t.task e
          ⊎ Overrun name agent token ttl a w e w')
      → Moved a id name w' ⊎ Burst (heartbeat agent token ttl) a w w'
  unfolding Burst
  heartbeat_fails agent token ttl e w' (inl h) = inl (stayed id name a w t w' h.0)
  heartbeat_fails agent token ttl e w' (inr over) =
      inr ((over.minutes, over.given, over.too_large), over.rows, inr over.holder.leased)

  -- Every call of the API is a step of the task's life, or leaves it where it was, unless its lease
  -- row cannot be stored.
  perform_moves : (c : Call) → Moved a id name (perform id c w) ⊎ Burst c a w (perform id c w)
  unfolding perform
  perform_moves (lease ttl agent) =
      Ends-state {R = λ w'. Moved a id name w' ⊎ Burst (lease ttl agent) a w w'} _
        (lease_task_refines id name agent ttl a w named t)
        (λ reply w' (n, _, h). inl (leased_moves n agent reply w' h))
        (λ e w' h. lease_fails ttl agent e w' h)
  perform_moves (release reason agent token) = inl (
      Ends-state _ (release_task_refines id name reason agent token a w named t)
        (λ reply w' h.
          stepped id name a w t _ w' (let_go _ _ h.0 (status_after_cases reason) refl) h.3)
        (λ _ w' h. stayed id name a w t w' h.0))
  perform_moves (heartbeat agent token ttl) =
      Ends-state {R = λ w'. Moved a id name w' ⊎ Burst (heartbeat agent token ttl) a w w'} _
        (heartbeat_task_refines id name agent token ttl a w named t)
        (λ _ w' h. inl (rested id name a w' h.1)) (λ e w' h. heartbeat_fails agent token ttl e w' h)
  perform_moves (complete agent token refs summary key) = inl (
      Ends-state _ (complete_task_refines id name agent token refs summary key a w named t)
        (λ reply w' h. completed_moves agent key token reply w' h)
        (λ _ w' h. stayed id name a w t w' h.0))
  perform_moves (fail agent token reason) = inl (
      Ends-state _ (fail_task_refines id name agent a w named t token reason)
        (λ _ w' h. stepped id name a w t _ w' (finish "blocked" _ h.0.leased (inr refl) refl) h.1)
        (λ _ w' h. stayed id name a w t w' h.0))
  perform_moves (cancel agent reason token) = inl (
      Ends-state _ (cancel_task_refines id name agent a w named t reason token)
        (λ _ w' h. cancelled_moves agent token w' h.0 h.1) (λ _ w' h. stayed id name a w t w' h.0))
  perform_moves (retry reason) = inl (
      Ends-state _ (retry_task_refines id name a w named t reason)
        (λ _ w' h. stepped id name a w t _ w' (reopen _ (retried_from h.0) refl) h.1)
        (λ _ w' h. stayed id name a w t w' h.0))

-- The token that a call must match, for the calls that no one but a lease holder may make.
abbrev pub bears : Call → Option ℤ
bears (heartbeat agent token ttl) = some token
bears (complete agent token refs summary key) = some token
bears (fail agent token reason) = some token
bears _ = none

next_between : (t : ℤ) (n : ℕ) → (next_token t ≤ℤ t +ℤ pos (suc n)) × (t ≤ℤ t +ℤ pos n)
next_between t n = (ground arith, ground arith)

rest_below : (t b : ℤ) (n : ℕ) → b ≤ℤ next_token t → b +ℤ pos n ≤ℤ t +ℤ pos (suc n)
rest_below t b n h = ground arith

module _ ⦃env : Env⦄ (id name : String) (named : json_file_name id ≡ ok name) where
  -- Whatever calls are made on a task that is tracked, whether they return or raise, where each
  -- duration and the task's token plus the number of calls fit into 64 bits: it is tracked
  -- afterwards, in one queue, its file and its lease row in agreement, at a stage to which the
  -- steps of the task's life lead.
  pub perform_all_refines :
      (cs : List Call) (a : Stage) (w : World)
      → Tracks id name a w
      → calls_fit cs ≡ true
      → is_int64 (a.token +ℤ pos (length cs)) ≡ true
      → (b : Stage) × Steps a b × Tracks id name b (perform_all id cs w)
  unfolding perform_all Moved Burst
  perform_all_refines [] a w t fits small = (a, stay a refl, t)
  perform_all_refines (c ∷ cs) a w t fits small = elim (perform_moves id name a w named t c) [
    | inl (b, first, u, near) ↦
        let (d, rest, v) =
          perform_all_refines cs b (perform id c w) u (and_right (call_fits c) _ fits) (
            is_int64_between b.token _ _ u.fields.storable.small small
              (next_between b.token (length cs)).1 (rest_below a.token b.token (length cs) near)) in
        (d, Steps-trans a b d first rest, v)
    | inr burst ↦
        elim (fits-not-Overflows c a.token (and_left _ (calls_fit cs) fits)
          (is_int64_between a.token _ _ t.fields.storable.small small (next_token_le a.token)
            (next_between a.token (length cs)).0)
          burst.0) [ ]
  ]

  submitted_all :
      (cs : List Call) (a : Stage) (w : World)
      → Tracks id name a w
      → a.status ≡ "submitted"
      → Tracks id name a (perform_all id cs w)
  unfolding perform_all Moved Burst
  submitted_all [] a w t done = t
  submitted_all (c ∷ cs) a w t done = elim (perform_moves id name a w named t c) [
    | inl (b, steps, u, _) ↦
        submitted_all cs a (perform id c w)
          (subst (λ x. Tracks id name x (perform id c w)) (Steps-submitted a b steps done) u) done
    | inr (_, _, movable) ↦ elim (submitted-not_movable (inl (rw done at movable))) [ ]
  ]

module _ ⦃env : Env⦄ (id name : String) (a : Stage) (w : World)
    (named : json_file_name id ≡ ok name) (t : Tracks id name a w) where
  -- The fencing token in the lease row of a tracked task never goes down over any calls of
  -- which each duration fits into 64 bits, and the task's token plus their number does, nor by one
  -- further call after them, of whatever duration.
  pub fencing_monotone :
      (cs : List Call)
      → calls_fit cs ≡ true
      → is_int64 (a.token +ℤ pos (length cs)) ≡ true
      → (c : Call)
      → (row_token id w.db ≤ℤ row_token id (perform_all id cs w).db)
        × (row_token id w.db ≤ℤ row_token id (perform id c (perform_all id cs w)).db)
  unfolding Moved Burst
  fencing_monotone cs fits small c =
      let (b, steps, u) = perform_all_refines id name named cs a w t fits small in
      let so_far : row_token id w.db ≤ℤ row_token id (perform_all id cs w).db =
        rw (t.row, u.row) (Steps-token a b steps) in
      (
        so_far,
        elim (perform_moves id name b (perform_all id cs w) named u c) [
          | inl (d, last, v, _) ↦ rw (t.row, v.row) (Steps-token a d (Steps-trans a b d steps last))
          | inr (_, rows, _) ↦ rw rows so_far
        ],
      )

  -- A submitted task stays submitted, with its holder and its token, whatever calls are made.
  pub submitted_final :
      a.status ≡ "submitted" → (cs : List Call) → Tracks id name a (perform_all id cs w)
  submitted_final done cs = submitted_all id name named cs a w t done

  refuted : (u token : ℤ) → Option.some u ≡ some token → a.token ≢ token → a.token ≡ u → ⊥
  refuted u token e stale h = stale (h ∙ some_inj e)

  completed_stale :
      (agent key : String) (u token : ℤ) (reply : Reply) (w' : World)
      → Option.some u ≡ some token
      → a.token ≢ token
      → CompleteOutcome id name agent u key a w reply w'
      → Same w w'
  completed_stale agent key u token reply w' e stale h = elim (Bool-cases reply.idempotent) [
    | inl again ↦ (rw again at h).0
    | inr first ↦ elim (refuted u token e stale (rw first at h).0.current) [ ]
  ]

  heartbeat_stale :
      (agent : String) (u token : ℤ) (ttl : Option Ttl) (e : Error) (w' : World)
      → Option.some u ≡ some token
      → a.token ≢ token
      → (Same w w' × HeartbeatFails id agent u ttl a t.task e ⊎ Overrun name agent u ttl a w e w')
      → Same w w'
  heartbeat_stale agent u token ttl e w' eq stale (inl h) = h.0
  heartbeat_stale agent u token ttl e w' eq stale (inr over) =
      elim (refuted u token eq stale over.holder.current) [ ]

  -- A call of a lease holder's that bears another token than the task's changes no file and no row.
  pub stale_call_fenced :
      (c : Call) (token : ℤ) → bears c ≡ some token → a.token ≢ token → Same w (perform id c w)
  unfolding perform
  stale_call_fenced (heartbeat agent u ttl) token e stale =
      Ends-state _ (heartbeat_task_refines id name agent u ttl a w named t)
        (λ _ w' h. elim (refuted u token e stale h.0.current) [ ])
        (λ x w' h. heartbeat_stale agent u token ttl x w' e stale h)
  stale_call_fenced (complete agent u refs summary key) token e stale =
      Ends-state _ (complete_task_refines id name agent u refs summary key a w named t)
        (λ reply w' h. completed_stale agent key u token reply w' e stale h) (λ _ w' h. h.0)
  stale_call_fenced (fail agent u reason) token e stale =
      Ends-state _ (fail_task_refines id name agent a w named t u reason)
        (λ _ w' h. elim (refuted u token e stale h.0.current) [ ]) (λ _ w' h. h.0)
  stale_call_fenced (lease ttl agent) token e stale = cc
  stale_call_fenced (release reason agent u) token e stale = cc
  stale_call_fenced (cancel agent reason u) token e stale = cc
  stale_call_fenced (retry reason) token e stale = cc
