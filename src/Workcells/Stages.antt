-- ===== src/Workcells/Stages.antt =====
-- `advance_workcell`: the next stage and no other.
use collective_capability_ru.Prelude.{
  ℕ, zero, suc, String, ◌≡◌, refl, ap, ◌∙◌, Bool, true, false, not, ◌||◌, Option, none, some, List,
  [], ◌∷◌, arith, eq_iff, eq_refl, str_eq,
}
use collective_capability_ru.Prelude.Map.{
  file_path_eq, lookup, lookup-insert_self, lookup-insert_other,
}
use collective_capability_ru.Result.{Error, require_passed, require, ok}
use collective_capability_ru.Json.{Dict, str, arr, obj}
use collective_capability_ru.Json.Fields.{get, get-set}
use collective_capability_ru.Env.{Env}
use collective_capability_ru.Exec.{World}
use collective_capability_ru.Exec.Laws.{
  Ends, Ends-pure, Ends-lift, Ends-bind, Ends-if, Same, Same-refl, step_gets,
}
use collective_capability_ru.Exec.Steps.{step_now, step_write, stamp}
use collective_capability_ru.Exec.Directory.{File, glob_sorted}
use collective_capability_ru.Workcells.{
  workcell_stages, get_elem?, index_of, workcell_file, current_stage,
}
use collective_capability_ru.Workcells.Advance.{
  is_text, comes_after, is_next, submissions_of, no_files, reveal_file, append_item, history_of,
  reveal_manifest, reveal, advanced, advance_workcell,
}
use collective_capability_ru.Workcells.Loading.{step_load}

get_elem?-index_of :
    (x : String) (xs : List String) (i : ℕ) → index_of x xs ≡ some i → get_elem? xs i ≡ some x
unfolding get_elem? index_of
get_elem?-index_of x [] i h = cc
get_elem?-index_of x (y ∷ ys) zero h = ground (arith, eq_iff y x)
get_elem?-index_of x (y ∷ ys) (suc i) h = ground (arith, get_elem?-index_of x ys i)

-- The target stands right after the current stage.
pub record Follows (current target : String) : Type 0 where
  pub place : ℕ
  pub from : get_elem? workcell_stages place ≡ some current
  pub to : get_elem? workcell_stages (suc place) ≡ some target

is_text-eq : (o : Option String) (t : String) → is_text o t ≡ true → o ≡ some t
is_text-eq none t h = cc
is_text-eq (some s) t h = ap some ((eq_iff s t).0 h)

after_Follows :
    (o : Option ℕ) (current target : String)
    → index_of current workcell_stages ≡ o
    → comes_after o target ≡ true
    → Follows current target
after_Follows none current target e h = cc
after_Follows (some k) current target e h = record {
  place = k;
  from = get_elem?-index_of current workcell_stages k e;
  to = is_text-eq (get_elem? workcell_stages (suc k)) target h;
}

is_next-Follows : (current target : String) → is_next current target ≡ true → Follows current target
is_next-Follows current target h =
    after_Follows (index_of current workcell_stages) current target refl (unfold is_next in h)

-- A check of `not (current == first) or not empty` that passed.
gate_open :
    (b c : Bool) (e : Error) {u : Unit {0}}
    → require (not b || not c) e ≡ ok u
    → b ≡ true
    → c ≡ false
gate_open b c e h k = ground arith

module _ ⦃env : Env⦄ where
  -- What was submitted to the stage that the metadata names.
  abbrev pub proposals : String → Dict → World → List File
  proposals name metadata w = glob_sorted (submissions_of name (current_stage metadata)) w.files

module _ ⦃env : Env⦄ (name target : String) (files : List File) (w : World)
    {Q : Error → World → Type 0} where
  -- The manifest is written at the reveal gate, and no row.
  reveal-Ends :
      Ends
        (λ _ w'.
          (w'.db ≡ w.db)
          × (str_eq target "reveal" ≡ true
              → lookup (reveal_file name) w'.files ≡ some (reveal_manifest name files)))
        Q
        (reveal name target files w)
  unfolding reveal
  reveal-Ends =
      Ends-if (str_eq target "reveal") _ _ w
        (λ gate. step_write _ _ _ _ (Ends-pure _ _ (refl, λ _. lookup-insert_self _ _ _)))
        (λ other. Ends-pure _ _ (refl, λ gate. cc))

module _ ⦃env : Env⦄ (name target : String) (w : World) where
  -- What a call that returned has done, with the metadata before and after.
  pub record Advanced (w' : World) : Type 0 where
    pub metadata : Dict
    pub there : lookup (workcell_file name) w.files ≡ some (obj metadata)
    pub follows : Follows (current_stage metadata) target
    -- the first stage ends only once something was proposed
    pub proposed :
        current_stage metadata ≡ "independent_proposal"
        → no_files (proposals name metadata w) ≡ false
    pub after : Dict
    pub stored : lookup (workcell_file name) w'.files ≡ some (obj after)
    pub says : get "current_stage" after ≡ some (str target)
    pub history :
        get "stage_history" after
        ≡ some (
            arr (
              append_item
                (history_of (get "stage_history" metadata) (current_stage metadata))
                (str target)))
    -- at the reveal gate, the manifest names the proposals that are there
    pub revealed :
        str_eq target "reveal" ≡ true
        → lookup (reveal_file name) w'.files
          ≡ some (reveal_manifest name (proposals name metadata w))
    pub db : w'.db ≡ w.db

  -- Where `advance_workcell` returns, the target stands right after the stage that the metadata
  -- named, the metadata now names the target and has it at the end of its history, at the first
  -- stage something had been proposed, at the reveal gate the manifest lists the proposals that were
  -- there, and no row has changed; where it raises, no file and no row has changed.
  pub advance_workcell_refines :
      Ends (λ report w'. Advanced w') (λ e w'. Same w w') (advance_workcell name target w)
  unfolding advance_workcell
  advance_workcell_refines =
      Ends-lift _ _ w
        (λ _ valid.
          Ends-lift _ _ w
            (λ _ known.
              step_load name w _
                (λ metadata there.
                  Ends-lift _ _ w
                    (λ _ placed.
                      Ends-lift _ _ w
                        (λ _ next. step_gets _ _ refl (
                          Ends-lift _ _ w
                            (λ _ proposed.
                              Ends-bind _ _ _
                                (reveal-Ends name target (proposals name metadata w) w)
                                (λ _ w' (rows, manifest). step_now _ _ (
                                  step_write _ _ _ _ (
                                    Ends-pure _ _ (record {
                                      metadata = metadata;
                                      there = there;
                                      follows = is_next-Follows _ _ (require_passed _ _ next);
                                      proposed =
                                          λ first. gate_open _ _ _ proposed ((eq_iff _ _).1 first);
                                      after =
                                          advanced (current_stage metadata) target (stamp w')
                                            metadata;
                                      stored = lookup-insert_self _ _ _;
                                      says = simp get-set;
                                      history = simp get-set;
                                      revealed = λ gate.
                                          lookup-insert_other (workcell_file name)
                                            (reveal_file name) _ _ (simp eq_refl)
                                          ∙ manifest gate;
                                      db = rows;
                                    })))))
                            (λ e fails. Same-refl w)))
                        (λ e fails. Same-refl w))
                    (λ e fails. Same-refl w))
                (λ e. Same-refl w))
            (λ e fails. Same-refl w))
        (λ e fails. Same-refl w)
