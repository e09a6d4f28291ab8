-- ===== src/Workcells/Advance.antt =====
-- `advance_workcell`.
use collective_capability_ru.Prelude.{
  ℕ, suc, String, Bool, true, false, not, ◌||◌, Option, none, some, List, [], ◌∷◌, str_eq, elem,
  if◌then◌else◌,
}
use collective_capability_ru.Prelude.Map.{FilePath}
use collective_capability_ru.Prelude.Text.{◌<>◌}
use collective_capability_ru.Result.{value_error}
use collective_capability_ru.Json.{
  Json, Items, Dict, null, bool, str, arr, obj, nil, cons, dict, strings,
}
use collective_capability_ru.Json.Fields.{get, set}
use collective_capability_ru.Json.Python.{get_default, truthy}
use collective_capability_ru.Env.{Env, to_text, path_text}
use collective_capability_ru.Exec.{
  Exec, pure, lift, gets, require, now_iso, write_file, ◌>>=◌, ◌>>◌,
}
use collective_capability_ru.Exec.Directory.{Segment, named, star_json, File, glob_sorted}
use collective_capability_ru.Ids.{validate_identifier}
use collective_capability_ru.Workcells.{
  workcell_stages, get_elem?, index_of, workcell_file, load_metadata, current_stage,
}

abbrev pub is_text : Option String → String → Bool
is_text none t = false
is_text (some s) t = str_eq s t

abbrev pub comes_after : Option ℕ → String → Bool
comes_after none target = false
comes_after (some i) target = is_text (get_elem? workcell_stages (suc i)) target

-- The test that the target comes right after the current stage.
unfoldable pub is_next : String → String → Bool
unfolding index_of get_elem?
is_next current target = comes_after (index_of current workcell_stages) target

-- `submissions/*.json` below the directory of a stage.
abbrev pub submissions_of : String → String → List Segment
submissions_of name stage =
    named "workcells"
    ∷ named name
    ∷ named "stages"
    ∷ named stage
    ∷ named "submissions"
    ∷ star_json
    ∷ []

abbrev pub no_files : List File → Bool
no_files [] = true
no_files (_ ∷ _) = false

abbrev pub reveal_file : String → FilePath
reveal_file name = "workcells" ∷ name ∷ "reveal.json" ∷ []

-- `[*items, stage]`
abbrev pub append_item : Items → Json → Items
append_item nil x = cons x nil
append_item (cons y ys) x = cons y (append_item ys x)

-- The history, or the current stage alone where it is no list.
abbrev pub history_of : Option Json → String → Items
history_of (some (arr xs)) current = xs
history_of _ current = cons (str current) nil

module _ ⦃env : Env⦄ where
  abbrev revealed_id : Json → Option String
  revealed_id (obj d) =
      let id = get_default (get "submission_id" d) null in
      if truthy id then some (to_text id) else none
  revealed_id _ = none

  -- The loop over the submissions at the reveal gate.
  unfoldable pub revealed_ids : List File → List String
  unfolding to_text
  revealed_ids [] = []
  revealed_ids ((p, v) ∷ files) =
      let rest = revealed_ids files in elim (revealed_id v) [ none ↦ rest | some id ↦ id ∷ rest ]

  abbrev pub reveal_manifest : String → List File → Json
  reveal_manifest name submissions = obj (
      dict (
        ("revealed_submission_ids", arr (strings (revealed_ids submissions)))
        ∷ ("schema_version", str "ccr.workcell_reveal.v1")
        ∷ ("workcell", str name)
        ∷ []))

  -- Writes the manifest at the reveal gate; returns where it is.
  unfoldable pub reveal : String → String → List File → Exec Json
  unfolding write_file revealed_ids path_text
  reveal name target submissions =
      if str_eq target "reveal"
      then (write_file (reveal_file name) (reveal_manifest name submissions)
          >> pure (str (path_text (reveal_file name))))
      else pure null

  -- The metadata at the next stage.
  abbrev pub advanced : String → String → String → Dict → Dict
  advanced current target at metadata = set "updated_at" (str at) (
      set "stage_history"
        (arr (append_item (history_of (get "stage_history" metadata) current) (str target)))
        (set "current_stage" (str target) metadata))

  -- `advance_workcell`
  unfoldable pub advance_workcell : String → String → Exec Dict
  unfolding load_metadata current_stage is_next reveal now_iso write_file
  advance_workcell name target = do
    _ ← lift (validate_identifier name "workcell")
    require (elem target workcell_stages) (value_error ("unknown workcell stage: " <> target))
    metadata ← load_metadata name
    let current = current_stage metadata
    require (elem current workcell_stages) (value_error "workcell has an invalid current stage")
    require (is_next current target)
        (value_error "workcell can advance only to the next protocol stage")
    submissions ← gets (λ w. glob_sorted (submissions_of name current) w.files)
    require (not (str_eq current "independent_proposal") || not (no_files submissions))
        (value_error "reveal requires at least one independent proposal")
    manifest ← reveal name target submissions
    at ← now_iso
    write_file (workcell_file name) (obj (advanced current target at metadata))
    pure (
        dict (
          ("from_stage", str current)
          ∷ ("ok", bool true)
          ∷ ("reveal_manifest", manifest)
          ∷ ("schema_version", str "ccr.workcell_transition.v1")
          ∷ ("to_stage", str target)
          ∷ ("workcell", str name)
          ∷ []))
