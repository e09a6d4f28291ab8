-- ===== src/Tasks/Scheduler/Choice.antt =====
-- `next_task`: what it returns, and what it leaves.
use collective_capability_ru.Prelude.{
  ℕ, String, ◌≡◌, refl, sym, ◌∙◌, ap, subst, inl, inr, Bool, true, false, Bool-cases, Option, none,
  some, List, [], ◌∷◌, map, All, Among, arith, if◌then◌else◌,
}
use collective_capability_ru.Result.{Error, ok, err, bind_ok, ok_inj}
use collective_capability_ru.Json.{Dict}
use collective_capability_ru.Json.Fields.{get}
use collective_capability_ru.Json.Python.{is_str}
use collective_capability_ru.Env.{Env}
use collective_capability_ru.Floats.{Floats}
use collective_capability_ru.Exec.{World, Exec, now_utc, ◌>>=◌}
use collective_capability_ru.Exec.Laws.{
  Ends, Ends-pure, Ends-bind, Ends-lift, Ends-last, Ends-exact, Ends-weaken_err, Same, Same-refl,
  Same-trans, step, step_gets,
}
use collective_capability_ru.Tasks.Scheduler.{
  lacks, is_eligible, workcell_stage_active, iter_tasks, completed_ids, candidates_of,
  candidates_in, next_task,
}
use collective_capability_ru.Tasks.Scheduler.Score.{time_of, aged, scheduler_score}
use collective_capability_ru.Tasks.Scheduler.Ranking.{
  Entry, sort_entries, first_task, entry_of, score_all, choose,
}
use collective_capability_ru.Tasks.Scheduler.Order.{
  IsHeaded, sort_entries-nil, IsOrdered, NoneBefore, sort_entries-Among, sort_entries-IsHeaded,
  none_sorted,
}

module _ ⦃env : Env⦄ (role : String) (completed : List String) (w : World) where
  -- A task that may be given to the role: an open one of that role, whose dependencies are
  -- completed and whose workcell is at its stage.
  pub record IsReady (task : Dict) : Type 0 where
    pub role_fits : is_str (get "role" task) role ≡ true
    pub open_status : is_str (get "status" task) "open" ≡ true
    pub dependencies : lacks completed (get "dependencies" task) ≡ false
    pub active : workcell_stage_active task w ≡ ok true

  eligible-IsReady :
      (task : Dict)
      → is_eligible role completed task ≡ true
      → workcell_stage_active task w ≡ ok true
      → IsReady task
  eligible-IsReady task h active = record {
    role_fits = ground arith;
    open_status = ground arith;
    dependencies = ground arith;
    active = active;
  }

  ready_eligible : (task : Dict) → IsReady task → is_eligible role completed task ≡ true
  ready_eligible task r = ground arith

  -- A candidate is a task that is ready.
  candidate-IsReady :
      (tasks cs : List Dict) (t : Dict)
      → candidates_of role completed tasks w ≡ ok cs
      → Among t cs
      → Among t tasks × IsReady t
  unfolding candidates_of
  candidate-IsReady [] cs t h here = absurd (subst (Among t) (sym (ok_inj h)) here)
  candidate-IsReady (task ∷ tasks) cs t h here =
      elim (Bool-cases (is_eligible role completed task)) [
        | inr passed ↦
            let (there, ready) = candidate-IsReady tasks cs t (rw passed at h) here in
            (inr there, ready)
        | inl eligible ↦
            let (active, e_1, h_1) = bind_ok (workcell_stage_active task w) _ (rw eligible at h) in
            let (others, e_2, h_2) = bind_ok (candidates_of role completed tasks w) _ h_1 in
            added eligible active others e_1 (candidate-IsReady tasks others t e_2)
              (subst (Among t) (sym (ok_inj h_2)) here)
      ]
    where
      later : Among t tasks × IsReady t → Among t (task ∷ tasks) × IsReady t
      later (there, ready) = (inr there, ready)

      added :
          is_eligible role completed task ≡ true
          → (active : Bool) (others : List Dict) → workcell_stage_active task w ≡ ok active
          → (Among t others → Among t tasks × IsReady t)
          → Among t (if active then task ∷ others else others)
          → Among t (task ∷ tasks) × IsReady t
      added eligible true others e ih (inl same) =
          (inl same, subst IsReady (sym same) (eligible-IsReady task eligible e))
      added eligible true others e ih (inr there) = later (ih there)
      added eligible false others e ih there = later (ih there)

  -- A task that is ready is a candidate.
  ready_candidate :
      (tasks cs : List Dict) (t : Dict)
      → candidates_of role completed tasks w ≡ ok cs
      → Among t tasks
      → IsReady t
      → Among t cs
  unfolding candidates_of
  ready_candidate [] cs t h there ready = absurd there
  ready_candidate (task ∷ tasks) cs t h (inl same) ready =
      let eligible =
        subst (λ x. is_eligible role completed x ≡ true) same (ready_eligible t ready) in
      let active = subst (λ x. workcell_stage_active x w ≡ ok true) same ready.active in
      let (others, e_2, h_2) =
        bind_ok (candidates_of role completed tasks w) _ (rw (eligible, active) at h) in
      subst (Among t) (ok_inj h_2) (inl same)
  ready_candidate (task ∷ tasks) cs t h (inr there) ready =
      elim (Bool-cases (is_eligible role completed task)) [
        | inr passed ↦ ready_candidate tasks cs t (rw passed at h) there ready
        | inl eligible ↦
            let (active, e_1, h_1) = bind_ok (workcell_stage_active task w) _ (rw eligible at h) in
            let (others, e_2, h_2) = bind_ok (candidates_of role completed tasks w) _ h_1 in
            subst (Among t) (ok_inj h_2)
              (kept active others (ready_candidate tasks others t e_2 there ready))
      ]
    where
      kept :
          (active : Bool) (others : List Dict)
          → Among t others
          → Among t (if active then task ∷ others else others)
      kept true others there = inr there
      kept false others there = there

module _ ⦃env : Env⦄ ⦃floats : Floats⦄ where
  after_candidates :
      {A : Type 0} {P : A → World → Type 0} {Q : Error → World → Type 0} (role : String)
      (completed : List String) (tasks : List Dict) (f : List Dict → Exec A) (w : World)
      → ((cs : List Dict) → candidates_of role completed tasks w ≡ ok cs → Ends P Q (f cs w))
      → ((e : Error) → candidates_of role completed tasks w ≡ err e → Q e w)
      → Ends P Q ((candidates_in role completed tasks >>= f) w)
  unfolding candidates_in ◌>>=◌
  after_candidates role completed tasks f w k q =
      Ends-lift (candidates_of role completed tasks w) f w k q

  -- The score behind an entry, at a state with the files and rows of `w`.
  pub record IsScored (w : World) (e : Entry) : Type 0 where
    pub before : World
    pub after : World
    pub value : floats.Number
    pub same : Same w before
    pub scored : scheduler_score e.task before ≡ (ok value, after)
    pub entry : e ≡ entry_of value e.task

  scored-Same :
      (task : Dict) (w : World)
      → Ends (λ _ w'. Same w w') (λ _ w'. Same w w') (scheduler_score task w)
  unfolding scheduler_score aged now_utc
  scored-Same task w =
      Ends-lift _ _ w
        (λ priority read.
          Ends-bind _ _ _ (aged-Same priority (time_of (get "created_at" task)))
            (λ score w' same. Ends-last _ _ (λ _ _. same) (λ _ _. same)))
        (λ e fails. Same-refl w)
    where
      aged-Same :
          (x : floats.Number) (o : Option ℕ)
          → Ends (λ _ w'. Same w w') (λ _ w'. Same w w') (aged x o w)
      aged-Same x none = Ends-pure _ _ (Same-refl w)
      aged-Same x (some t) = step _ _ refl (Ends-pure _ _ (record { files = refl; db = refl }))

  -- The candidates are scored in their order, and nothing is changed.
  score_all-IsScored :
      (cs : List Dict) (w w' : World)
      → Same w w'
      → Ends
          (λ es w''. (map (λ (e : Entry). e.task) es ≡ cs) × All (IsScored w) es × Same w w'')
          (λ _ w''. Same w w'')
          (score_all cs w')
  unfolding score_all
  score_all-IsScored [] w w' same = Ends-pure _ _ (refl, tt, same)
  score_all-IsScored (task ∷ tasks) w w' same =
      Ends-bind _ _ _
        (Ends-weaken_err _ (Ends-exact _ (scored-Same task w')) (λ _ _ more. Same-trans same more))
        (λ score w_1 (more, scored).
          Ends-bind _ _ _ (score_all-IsScored tasks w w_1 (Same-trans same more))
            (λ es w_2 (order, behind, last). Ends-pure _ _ (
              ap (λ ts. task ∷ ts) order,
              (
                record {
                  before = w';
                  after = w_1;
                  value = score;
                  same = same;
                  scored = scored;
                  entry = refl;
                },
                behind,
              ),
              last,
            )))

  -- What an answer says: no task is ready, or one that is, and no ready task has a higher score.
  abbrev pub Best : String → List String → World → Dict → Type 0
  Best role completed w t =
      (best : Entry) × (es : List Entry) × (best.task ≡ t)
      × Among best es
      × ((top : IsScored w best) × All
            (λ (e : Entry). (s : IsScored w e) × (floats.lt top.value s.value ≡ false)) es)
      × ((t' : Dict)
          → Among t' (iter_tasks none w)
          → IsReady role completed w t'
          → Among t' (map (λ (e : Entry). e.task) es))

  abbrev pub Answer : String → List String → World → Option Dict → Type 0
  Answer role completed w none =
      (t : Dict) → Among t (iter_tasks none w) → ¬ IsReady role completed w t
  Answer role completed w (some t) =
      Among t (iter_tasks none w) × IsReady role completed w t × Best role completed w t

  All-at : (P : Entry → Type 0) (e : Entry) (es : List Entry) → All P es → Among e es → P e
  All-at P e [] h here = elim here [ ]
  All-at P e (x ∷ es) (p, ps) (inl same) = subst P (sym same) p
  All-at P e (x ∷ es) (p, ps) (inr there) = All-at P e es ps there

  task-Among :
      (e : Entry) (es : List Entry) → Among e es → Among e.task (map (λ (x : Entry). x.task) es)
  task-Among e [] h = elim h [ ]
  task-Among e (x ∷ es) (inl same) = inl (ap (λ (y : Entry). y.task) same)
  task-Among e (x ∷ es) (inr there) = inr (task-Among e es there)

  module _ (laws : IsOrdered floats) (role : String) (w : World) where
    -- An entry that does not come before another has no higher score.
    no_higher :
        (best e : Entry) (top : IsScored w best) (s : IsScored w e)
        → floats.lt e.score best.score ≡ false
        → floats.lt top.value s.value ≡ false
    no_higher best e top s h =
        sym (laws.negated s.value top.value)
        ∙ subst (λ x. floats.lt (entry_of s.value e.task).score x ≡ false)
            (ap (λ (x : Entry). x.score) top.entry)
            (subst (λ x. floats.lt x best.score ≡ false) (ap (λ (x : Entry). x.score) s.entry) h)

    none_higher :
        (best : Entry) (top : IsScored w best) (es : List Entry)
        → All (IsScored w) es
        → NoneBefore best es
        → All (λ (e : Entry). (s : IsScored w e) × (floats.lt top.value s.value ≡ false)) es
    none_higher best top [] behind none_before = tt
    none_higher best top (e ∷ es) (s, behind) (h, none_before) =
        ((s, no_higher best e top s h), none_higher best top es behind none_before)

    chosen :
        (completed : List String) (cs : List Dict) (es sorted : List Entry)
        → candidates_of role completed (iter_tasks none w) w ≡ ok cs
        → map (λ (e : Entry). e.task) es ≡ cs
        → All (IsScored w) es
        → sort_entries es ≡ sorted
        → Answer role completed w (first_task sorted)
    chosen completed cs es [] found order behind e = λ t there ready.
        subst (λ xs. Among t (map (λ (x : Entry). x.task) xs)) (sort_entries-nil es e)
          (subst (Among t) (sym order) (ready_candidate role completed w _ cs t found there ready))
    chosen completed cs es (best ∷ rest) found order behind e =
        let place : Among best es =
          sort_entries-Among best es (subst (Among best) (sym e) (inl refl)) in
        let head : NoneBefore best (best ∷ rest) =
          subst (IsHeaded laws) e (sort_entries-IsHeaded laws es) in
        let (listed, ready) =
          candidate-IsReady role completed w _ cs best.task found
            (subst (Among best.task) order (task-Among best es place)) in
        (
          listed,
          ready,
          (
            best,
            es,
            refl,
            place,
            (
              All-at (IsScored w) best es behind place,
              none_higher best (All-at (IsScored w) best es behind place) es behind
                  (none_sorted laws best es (subst (NoneBefore best) (sym e) head)),
            ),
            λ t' there is_ready.
                subst (Among t') (sym order)
                  (ready_candidate role completed w _ cs t' found there is_ready),
          ),
        )

    -- Where `next_task` returns, it has changed no file and no row; it returns no task only if none
    -- is ready for the role, and otherwise one that is, and no ready task has a score by `scheduler_score` that is
    -- higher than that of the returned one. Where it raises, it has changed nothing either.
    pub next_task_refines :
        Ends
          (λ answer w'.
            Same w w'
            × ((completed : List String) × (completed_ids (iter_tasks none w) ≡ ok completed)
                × Answer role completed w answer))
          (λ _ w'. Same w w')
          (next_task role w)
    unfolding next_task choose candidates_in
    next_task_refines = step_gets _ _ refl (
        Ends-lift _ _ w
          (λ completed done.
            after_candidates role completed _ _ w
              (λ cs found.
                Ends-bind _ _ _ (score_all-IsScored cs w w (Same-refl w))
                  (λ es w' (order, behind, same).
                    Ends-pure _ _
                      (same, (completed, done, chosen completed cs es _ found order behind refl))))
              (λ _ _. Same-refl w))
          (λ _ _. Same-refl w))
