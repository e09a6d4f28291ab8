-- ===== src/Tests/Workcells.antt =====
-- Runs of workcells/protocol.py on concrete states, and an example for each theorem about it.
use collective_capability_ru.Prelude.{◌+◌, ◌≤◌, String, ◌≡◌, refl, some, List, [], ◌∷◌, false}
use collective_capability_ru.Prelude.Map.{string_eq, file_path_eq, lookup, insert, FilePath}
use collective_capability_ru.Prelude.Text.{ends_with}
use collective_capability_ru.Env.{to_text}
use collective_capability_ru.Ids.{validate_identifier, json_file_name}
use collective_capability_ru.Residuals.Store.{residual_path}
use collective_capability_ru.Tasks.{task_path}
use collective_capability_ru.Prelude.Words.{strip, split_words, join_words}
use collective_capability_ru.Result.{ok}
use collective_capability_ru.Json.{Dict, null, str, bool, arr, obj, dict, items, strings}
use collective_capability_ru.Json.Equality.{json_eq}
use collective_capability_ru.Json.Fields.{get, set}
use collective_capability_ru.Exec.{World, Exec, to_dict, ◌>>=◌}
use collective_capability_ru.Exec.Laws.{Ends, Same}
use collective_capability_ru.Exec.Directory.{glob_sorted}
use collective_capability_ru.Workcells.{get_elem?, workcell_file}
use collective_capability_ru.Workcells.Advance.{advance_workcell}
use collective_capability_ru.Workcells.Stages.{Advanced, advance_workcell_refines}
use collective_capability_ru.Workcells.Runs.{
  advance, submit, IsStaged, perform_all, stages_in_order, advances_bounded,
}
use collective_capability_ru.Workcells.Claims.{
  Gathered, group_claims, effective_support_count, claims_of, key_of, text_of, fresh_claim,
}
use collective_capability_ru.Workcells.Grouping.{
  summary, with_key, contributions, group_claims_lem, correlated_support_once,
}
use collective_capability_ru.Workcells.Integrate.{integrate_workcell}
use collective_capability_ru.Workcells.Integrating.{Reported, integrate_workcell_refines}
use collective_capability_ru.Workcells.Create.{create_roles, create_workcell}
use collective_capability_ru.Workcells.Creating.{Starts, create_workcell_refines}
use collective_capability_ru.Tests.Setup.{test_env, world_of}

abbrev metadata_at : String → List String → Dict
metadata_at stage history =
    dict (("current_stage", str stage) ∷ ("stage_history", arr (strings history)) ∷ [])

abbrev proposal : FilePath
proposal = "workcells" ∷ "cell" ∷ "stages" ∷ "independent_proposal" ∷ "submissions" ∷ "s1.json" ∷ []

abbrev claim : String → Dict
claim text = dict (("claim_text", str text) ∷ [])

abbrev submission : String → String → Dict
submission id text = dict (
    ("submission_id", str id)
    ∷ ("correlation_group", str "g1")
    ∷ ("payload", obj (dict (("claims", arr (items (obj (claim text) ∷ []))) ∷ [])))
    ∷ [])

-- A workcell with one proposal, at its first stage.
abbrev cell_world : World
cell_world =
    world_of
      ((
        workcell_file "cell",
        obj (metadata_at "independent_proposal" ("independent_proposal" ∷ [])),
      )
        ∷ (proposal, obj (submission "s1" "It holds"))
        ∷ [])
      []

cell_IsStaged : IsStaged "cell" 0 cell_world
unfolding lookup get get_elem?
cell_IsStaged = record {
  metadata = metadata_at "independent_proposal" ("independent_proposal" ∷ []);
  there = refl;
  stage = "independent_proposal";
  at = refl;
  says = refl;
  history = refl;
}

two_steps :
    (perform_all "cell"
      (advance "reveal" ∷ advance "reveal" ∷ advance "critique" ∷ [])
      cell_world).0
    ≡ 2
unfolding perform_all advance_workcell ◌>>=◌ validate_identifier lookup to_dict get glob_sorted
    ends_with insert set
two_steps = refl

blank_words : join_words (split_words (strip "  so  it  goes ")) ≡ "so it goes"
unfolding join_words split_words strip
blank_words = refl

advance_workcell_refines_example :
    Ends
      (λ report w'. Advanced "cell" "reveal" cell_world w')
      (λ e w'. Same cell_world w')
      (advance_workcell "cell" "reveal" cell_world)
advance_workcell_refines_example = advance_workcell_refines "cell" "reveal" cell_world

stages_in_order_example :
    IsStaged "cell"
      (0 + (perform_all "cell" (advance "reveal" ∷ []) cell_world).0)
      (perform_all "cell" (advance "reveal" ∷ []) cell_world).1
stages_in_order_example = stages_in_order "cell" 0 (advance "reveal" ∷ []) cell_world cell_IsStaged

advances_bounded_example :
    (perform_all "cell" (advance "reveal" ∷ submit (ok null) ∷ []) cell_world).0 ≤ 5
advances_bounded_example =
    advances_bounded "cell" (advance "reveal" ∷ submit (ok null) ∷ []) cell_world cell_IsStaged

-- Two submissions from one source state one claim, spaced differently.
abbrev envelopes : List Dict
envelopes = submission "s1" "It holds" ∷ submission "s2" " It  holds" ∷ []

abbrev gathered : Gathered
gathered = record {
  claim_id = "workcell-claim:0123456789abcdef01234567";
  claim_text = "It holds";
  contradictions = [];
  dependencies = [];
  evidence = [];
  groups = str "g1" ∷ [];
  submissions = str "s1" ∷ str "s2" ∷ [];
}

envelopes_grouped : group_claims envelopes [] ≡ ok (("It holds", gathered) ∷ [])
unfolding group_claims get lookup insert fresh_claim json_eq
envelopes_grouped = refl

group_claims_lem_example :
    lookup {K = String} "It holds" (("It holds", gathered) ∷ [])
    ≡ summary (with_key "It holds" (contributions envelopes))
group_claims_lem_example =
    group_claims_lem "It holds" envelopes (("It holds", gathered) ∷ []) envelopes_grouped

correlated_support_once_example : effective_support_count gathered ≡ 1
unfolding get lookup claims_of key_of text_of
correlated_support_once_example =
    correlated_support_once "It holds" "g1" envelopes (("It holds", gathered) ∷ []) gathered
      envelopes_grouped refl (refl, (refl, tt))

integrate_workcell_refines_example :
    Ends
      (λ report w'. Reported "cell" cell_world report w')
      (λ e w'. Unit {0})
      (integrate_workcell "cell" "residual-preserving" cell_world)
integrate_workcell_refines_example =
    integrate_workcell_refines "cell" "residual-preserving" cell_world

-- One file stands for what `init_runtime` writes.
abbrev started : Exec (Unit {0})
started w = (ok tt, record w { files = insert ("policies" ∷ "default.json" ∷ []) null w.files })

started_keeps :
    Ends
      (λ _ w_1.
        lookup (workcell_file "cell") w_1.files
        ≡ lookup (workcell_file "cell") (world_of [] []).files)
      (λ _ _. Unit {0})
      (started (world_of [] []))
unfolding lookup insert
started_keeps = record { outcome = refl }

create_workcell_refines_example :
    Ends
      (λ _ w'. Starts "proof-search" "cell" (world_of [] []) w')
      (λ _ w'. Unit {0})
      (create_workcell started "proof-search" "cell" (world_of [] []))
create_workcell_refines_example =
    create_workcell_refines "proof-search" "cell" started (world_of [] []) started_keeps

-- The integration of the one proposal comes too early, and returns.
early_integration :
    (r : Dict) × (w : World) × (integrate_workcell "cell" "residual-preserving" cell_world
      ≡ (ok r, w))
    × (get "protocol_complete" r ≡ some (bool false))
unfolding integrate_workcell get lookup insert fresh_claim json_eq ◌>>=◌ validate_identifier to_dict
    ends_with residual_path json_file_name
early_integration = (_, _, refl, refl)

-- The tasks of the seven roles are submitted.
creation :
    (r : Dict) × (w : World) × (create_roles "proof-search" "cell" (world_of [] []) ≡ (ok r, w))
    × (get "name" r ≡ some (str "cell"))
unfolding create_roles get lookup insert ◌>>=◌ validate_identifier to_text task_path json_file_name
creation = (_, _, refl, refl)
