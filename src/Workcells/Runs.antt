-- ===== src/Workcells/Runs.antt =====
-- Any sequence of advances and submissions on one workcell.
use collective_capability_ru.Prelude.{
  ℕ, zero, suc, ◌+◌, ◌≤◌, ◌<◌, String, ◌≡◌, refl, sym, ap, subst, ◌∙◌, some, some_inj, List, [],
  ◌∷◌, ◌++◌, take, length, arith,
}
use collective_capability_ru.Prelude.Map.{file_path_eq, lookup}
use collective_capability_ru.Result.{Result, ok, err}
use collective_capability_ru.Json.{Json, Dict, str, arr, obj, cons, strings}
use collective_capability_ru.Json.Fields.{get}
use collective_capability_ru.Env.{Env, to_text}
use collective_capability_ru.Exec.{World}
use collective_capability_ru.Exec.Laws.{Ends, Ends-state, Same}
use collective_capability_ru.Workcells.{
  workcell_stages, get_elem?, index_of, workcell_file, current_stage,
}
use collective_capability_ru.Workcells.Advance.{append_item, history_of, advance_workcell}
use collective_capability_ru.Workcells.Submit.{submit_workcell}
use collective_capability_ru.Workcells.Stages.{Advanced, advance_workcell_refines}
use collective_capability_ru.Workcells.Keeping.{Keeps, submit_workcell-Keeps}

place-index_of :
    (i : ℕ) (s : String)
    → get_elem? workcell_stages i ≡ some s
    → index_of s workcell_stages ≡ some i
unfolding get_elem? index_of
place-index_of zero s h = rw (← some_inj h) refl
place-index_of (suc zero) s h = rw (← some_inj h) refl
place-index_of (suc (suc zero)) s h = rw (← some_inj h) refl
place-index_of (suc (suc (suc zero))) s h = rw (← some_inj h) refl
place-index_of (suc (suc (suc (suc zero)))) s h = rw (← some_inj h) refl
place-index_of (suc (suc (suc (suc (suc zero))))) s h = rw (← some_inj h) refl
place-index_of (suc (suc (suc (suc (suc (suc i)))))) s h = cc

-- A stage stands at one place.
place_unique :
    (i j : ℕ) (s : String)
    → get_elem? workcell_stages i ≡ some s
    → get_elem? workcell_stages j ≡ some s
    → i ≡ j
place_unique i j s h k = some_inj (sym (place-index_of i s h) ∙ place-index_of j s k)

get_elem?-lt : (xs : List String) (i : ℕ) (s : String) → get_elem? xs i ≡ some s → i < length xs
unfolding get_elem?
get_elem?-lt [] i s h = cc
get_elem?-lt (x ∷ xs) zero s h = omega arith
get_elem?-lt (x ∷ xs) (suc i) s h = omega (arith, get_elem?-lt xs i s h)

append-strings :
    (xs : List String) (t : String) → append_item (strings xs) (str t) ≡ strings (xs ++ (t ∷ []))
append-strings [] t = refl
append-strings (x ∷ xs) t = ap (cons (str x)) (append-strings xs t)

take-suc :
    (k : ℕ) (xs : List String) (t : String)
    → get_elem? xs k ≡ some t
    → take (suc k) xs ≡ take k xs ++ (t ∷ [])
unfolding get_elem?
take-suc k [] t h = cc
take-suc zero (x ∷ xs) t h = ap (λ y. y ∷ []) (some_inj h)
take-suc (suc k) (x ∷ xs) t h = ap (λ ys. x ∷ ys) (take-suc k xs t h)

pub data Call : Type 0 where
  advance : (target : String) → Call
  submit : (file : Result Json) → Call

-- Counts a call that returned.
abbrev counted : {A : Type 0} → Result A × World → ℕ × World
counted (ok _, w) = (1, w)
counted (err _, w) = (0, w)

module _ ⦃env : Env⦄ (name : String) where
  -- The metadata is at the stage of a place, and its history has the stages up to there.
  pub record IsStaged (place : ℕ) (w : World) : Type 0 where
    pub metadata : Dict
    pub there : lookup (workcell_file name) w.files ≡ some (obj metadata)
    pub stage : String
    pub at : get_elem? workcell_stages place ≡ some stage
    pub says : get "current_stage" metadata ≡ some (str stage)
    pub history :
        get "stage_history" metadata ≡ some (arr (strings (take (suc place) workcell_stages)))

  -- A call, whether it returns or raises: the number of advances made, and the state after it.
  pub perform : Call → World → ℕ × World
  perform (advance target) w = counted (advance_workcell name target w)
  perform (submit file) w = (0, (submit_workcell name file w).1)

  unfoldable pub perform_all : List Call → World → ℕ × World
  unfolding perform
  perform_all [] w = (0, w)
  perform_all (c ∷ cs) w =
      let (n, w_1) = perform c w in let (m, w_2) = perform_all cs w_1 in (n + m, w_2)

  pub same_place : (k : ℕ) (w w' : World) → IsStaged k w → w'.files ≡ w.files → IsStaged k w'
  same_place k w w' s same = record {
    metadata = s.metadata;
    there = ap (lookup (workcell_file name)) same ∙ s.there;
    stage = s.stage;
    at = s.at;
    says = s.says;
    history = s.history;
  }

  module _ (k : ℕ) (w : World) (s : IsStaged k w) where
    same_metadata : {d : Dict} → lookup (workcell_file name) w.files ≡ some (obj d) → d ≡ s.metadata
    same_metadata there = found (some_inj (sym there ∙ s.there))
      where
        found : {d e : Dict} → obj d ≡ obj e → d ≡ e
        found h = cc

    reads_stage : current_stage s.metadata ≡ s.stage
    unfolding current_stage to_text
    reads_stage = rw s.says refl

    Advanced-IsStaged :
        (target : String) (w' : World) → Advanced name target w w' → IsStaged (suc k) w'
    Advanced-IsStaged target w' a =
        let same = same_metadata a.there in
        let current : current_stage a.metadata ≡ s.stage = ap current_stage same ∙ reads_stage in
        let place = place_unique _ _ _ (a.follows.from ∙ ap some current) s.at in
        let next =
          subst (λ i. get_elem? workcell_stages (suc i) ≡ some target) place a.follows.to in
        record {
          metadata = a.after;
          there = a.stored;
          stage = target;
          at = next;
          says = a.says;
          history =
              a.history
              ∙ ap
                  (λ o.
                    some (arr (append_item (history_of o (current_stage a.metadata)) (str target))))
                  (ap (get "stage_history") same ∙ s.history)
              ∙ ap (λ xs. some (arr xs)) (append-strings (take (suc k) workcell_stages) target)
              ∙ ap (λ xs. some (arr (strings xs)))
                  (sym (take-suc (suc k) workcell_stages target next));
        }

    kept_place : (w' : World) → Keeps name s.metadata w' → IsStaged k w'
    kept_place w' a = record {
      metadata = a.metadata;
      there = a.there;
      stage = s.stage;
      at = s.at;
      says = a.stage ∙ s.says;
      history = a.history ∙ s.history;
    }

  at_place : {i j : ℕ} (w : World) → i ≡ j → IsStaged i w → IsStaged j w
  at_place w e s = subst (λ i. IsStaged i w) e s

  perform-IsStaged :
      (k : ℕ) (c : Call) (w : World) → IsStaged k w → IsStaged (k + (perform c w).0) (perform c w).1
  unfolding perform
  perform-IsStaged k (advance target) w s =
      ended (advance_workcell name target w) (advance_workcell_refines name target w)
    where
      ended :
          {A : Type 0} (x : Result A × World)
          → Ends (λ _ w'. Advanced name target w w') (λ _ w'. Same w w') x
          → IsStaged (k + (counted x).0) (counted x).1
      ended (ok a, w') h = at_place w' (omega arith) (Advanced-IsStaged k w s target w' h.outcome)
      ended (err e, w') h = at_place w' (omega arith) (same_place k w w' s h.outcome.files)
  perform-IsStaged k (submit file) w s = at_place _ (omega arith) (
      Ends-state _ (submit_workcell-Keeps name file s.metadata w s.there)
        (λ _ w' h. kept_place k w s w' h) (λ _ w' h. kept_place k w s w' h))

  -- However advances and submissions follow one another on a workcell that is at a stage, and
  -- whether they return or raise: it is then as many stages further as advances have returned, and
  -- its history is the list of the stages up to there, in their order.
  pub stages_in_order :
      (k : ℕ) (cs : List Call) (w : World)
      → IsStaged k w
      → IsStaged (k + (perform_all cs w).0) (perform_all cs w).1
  unfolding perform_all
  stages_in_order k [] w s = at_place w (omega arith) s
  stages_in_order k (c ∷ cs) w s =
      at_place _ (omega arith)
        (stages_in_order (k + (perform c w).0) cs (perform c w).1 (perform-IsStaged k c w s))

  -- From the first stage, no more than five advances return, whatever calls are made.
  pub advances_bounded : (cs : List Call) (w : World) → IsStaged 0 w → (perform_all cs w).0 ≤ 5
  advances_bounded cs w s =
      let last = stages_in_order 0 cs w s in omega (arith, get_elem?-lt workcell_stages _ _ last.at)
