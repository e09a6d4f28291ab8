-- ===== src/Workcells/Submit.antt =====
-- `submit_workcell`, and the residuals that a contribution reports.
use collective_capability_ru.Prelude.{
  String, true, false, none, some, List, [], ◌∷◌, str_eq, elem, if◌then◌else◌,
}
use collective_capability_ru.Prelude.Map.{FilePath}
use collective_capability_ru.Result.{Result, value_error}
use collective_capability_ru.Json.{Json, Dict, null, bool, str, arr, obj, nil, dict, strings}
use collective_capability_ru.Json.Fields.{get, set}
use collective_capability_ru.Json.Python.{get_default, is_true, as_dict}
use collective_capability_ru.Json.Equality.{iterate}
use collective_capability_ru.Env.{Env, to_text, path_text}
use collective_capability_ru.Exec.{
  Exec, pure, lift, require, require_dict, now_iso, write_file, ◌>>=◌, ◌>>◌,
}
use collective_capability_ru.Ids.{validate_identifier, json_file_name, stable_id}
use collective_capability_ru.Blackboard.{EventSpec, make_event, append_event}
use collective_capability_ru.Residuals.{ResidualSpec, residual_spec, build_residual}
use collective_capability_ru.Residuals.Store.{save_residual}
use collective_capability_ru.Workcells.{
  workcell_stages, workcell_file, load_metadata, current_stage,
}

abbrev pub submission_file : String → String → String → FilePath
submission_file name stage file = "workcells" ∷ name ∷ "stages" ∷ stage ∷ "submissions" ∷ file ∷ []

-- The keyword arguments that the workcell operations leave out of `make_event`.
abbrev pub workcell_event : String → String → String → List String → List String → EventSpec
workcell_event action name status_after refs residuals = record {
  action = action;
  actor = "ccr";
  object_type = "task";
  object_id = name;
  status_before = none;
  status_after = some status_after;
  refs = refs;
  residuals = residuals;
  dry_run = false;
  note = "";
}

module _ ⦃env : Env⦄ where
  -- The residual that one entry of `data["residuals"]` describes.
  abbrev pub submission_residual : String → String → Dict → ResidualSpec
  submission_residual name destination raw =
      record (residual_spec (to_text (get_default (get "kind" raw) (str "other")))
        (to_text (get_default (get "description" raw) (str "workcell residual")))
        (is_true (get "blocking" raw)) "task" name (destination ∷ []) "ccr.workcell") {
          extensions = dict (("raw", obj raw) ∷ []);
        }

  -- The loop of `_materialize_submission_residuals`.
  unfoldable pub materialize_each : String → String → List Json → Exec (List String)
  unfolding build_residual save_residual to_text
  materialize_each name destination [] = pure []
  materialize_each name destination (obj raw ∷ rest) = do
    residual ← build_residual (submission_residual name destination raw)
    _ ← save_residual residual
    ids ← materialize_each name destination rest
    pure (to_text (get_default (get "residual_id" residual) null) ∷ ids)
  materialize_each name destination (_ ∷ rest) = materialize_each name destination rest

  -- `_materialize_submission_residuals`
  unfoldable pub materialize_submission_residuals : String → Dict → String → Exec (List String)
  unfolding iterate materialize_each
  materialize_submission_residuals name contribution destination = do
    raws ← lift (iterate (get_default (get "residuals" contribution) (arr nil)))
    materialize_each name destination raws

  -- The digest of model, source and tool.
  unfoldable pub correlation_group : Dict → String
  correlation_group provenance = env.sha256 (
      obj (
        dict (
          ("model", get_default (get "model" provenance) null)
          ∷ ("source", get_default (get "source" provenance) null)
          ∷ ("tool", get_default (get "tool" provenance) null)
          ∷ [])))

  abbrev pub visibility_at : String → String
  visibility_at stage =
      if str_eq stage "independent_proposal" then "hidden_until_reveal" else "stage"

  abbrev pub submission_id_of : String → String → Dict → String
  submission_id_of name stage contribution =
      stable_id "workcell-submission" (str name ∷ str stage ∷ obj contribution ∷ [])

  -- The stored form of a contribution.
  unfoldable pub envelope : String → String → Dict → Dict
  unfolding correlation_group stable_id
  envelope name stage contribution =
      let provenance = as_dict (get "provenance" contribution) in
      dict (
        ("correlation_group", str (correlation_group provenance))
        ∷ ("payload", obj contribution)
        ∷ ("provenance", obj provenance)
        ∷ ("schema_version", str "ccr.workcell_submission.v2")
        ∷ ("stage", str stage)
        ∷ ("submission_id", str (submission_id_of name stage contribution))
        ∷ ("visibility", str (visibility_at stage))
        ∷ ("workcell", str name)
        ∷ [])

  -- `submit_workcell`; the contribution's file lies outside the runtime root.
  unfoldable pub submit_workcell : String → Result Json → Exec Dict
  unfolding load_metadata current_stage envelope stable_id json_file_name path_text write_file
      materialize_submission_residuals now_iso make_event append_event
  submit_workcell name file = do
    _ ← lift (validate_identifier name "workcell")
    metadata ← load_metadata name
    value ← lift file
    contribution ← require_dict value "workcell output must be a JSON object"
    let stage = current_stage metadata
    require (elem stage workcell_stages) (value_error "workcell has an invalid current stage")
    file_name ← lift (json_file_name (submission_id_of name stage contribution))
    let destination = submission_file name stage file_name
    write_file destination (obj (envelope name stage contribution))
    residual_ids ← materialize_submission_residuals name contribution (path_text destination)
    at ← now_iso
    write_file (workcell_file name) (obj (set "updated_at" (str at) metadata))
    event ← make_event (
        workcell_event "workcell.submit" name "submitted" (path_text destination ∷ []) residual_ids)
    append_event event
    pure (
        dict (
          ("ok", bool true)
          ∷ ("path", str (path_text destination))
          ∷ ("residuals", arr (strings residual_ids))
          ∷ ("stage", str stage)
          ∷ ("submission_id", str (submission_id_of name stage contribution))
          ∷ ("visibility", str (visibility_at stage))
          ∷ ("workcell", str name)
          ∷ []))
