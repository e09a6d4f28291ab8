-- ===== src/Workcells/Integrate.antt =====
-- `integrate_workcell`: the report over all submissions, which never settles anything.
use collective_capability_ru.Prelude.{
  String, Bool, true, false, Option, none, some, List, [], ◌∷◌, ◌++◌, map, leb, str_eq, elem,
  if◌then◌else◌,
}
use collective_capability_ru.Prelude.Map.{FilePath}
use collective_capability_ru.Prelude.Sorted.{sorted_set}
use collective_capability_ru.Prelude.Text.{◌<>◌}
use collective_capability_ru.Result.{Result, ok, err, value_error, key_error, ◌>>=◌ as bind_result}
use collective_capability_ru.Json.{
  Json, Items, Dict, null, bool, str, arr, obj, nil, dict, items, strings,
}
use collective_capability_ru.Json.Fields.{get, set}
use collective_capability_ru.Json.Python.{get_default, is_str}
use collective_capability_ru.Env.{Env, to_text, path_text}
use collective_capability_ru.Exec.{
  Exec, pure, lift, gets, require, now_iso, write_file, ◌>>=◌, ◌>>◌,
}
use collective_capability_ru.Exec.Directory.{
  Segment, named, star, star_json, File, glob_sorted, objects_of,
}
use collective_capability_ru.Ids.{validate_identifier}
use collective_capability_ru.Residuals.{ResidualSpec, residual_spec, build_residual}
use collective_capability_ru.Residuals.Store.{Named, named_in, save_residual}
use collective_capability_ru.Workcells.{workcell_file, load_metadata, current_stage}
use collective_capability_ru.Workcells.Advance.{append_item}
use collective_capability_ru.Workcells.Claims.{
  Gathered, effective_support_count, distinct_texts, settle_claim, integrate_claims,
}

-- `*/submissions/*.json` below the stages.
abbrev pub all_submissions : String → List Segment
all_submissions name =
    named "workcells" ∷ named name ∷ named "stages" ∷ star ∷ named "submissions" ∷ star_json ∷ []

abbrev pub integration_file : String → FilePath
integration_file name = "workcells" ∷ name ∷ "integration.json" ∷ []

-- `current_stage in {"verification", "integration"}`
unfoldable pub protocol_complete : String → Bool
protocol_complete stage = elem stage ("verification" ∷ "integration" ∷ [])

-- The history, or no stage at all where it is no list.
abbrev pub history_or_none : Option Json → Items
history_or_none (some (arr xs)) = xs
history_or_none _ = nil

abbrev pub integrated : String → Dict → Dict
integrated at metadata = set "updated_at" (str at) (
    set "stage_history"
      (arr (append_item (history_or_none (get "stage_history" metadata)) (str "integration")))
      (set "current_stage" (str "integration") metadata))

abbrev pub residuals_of : String → List Named → List Dict
residuals_of name [] = []
residuals_of name ((file, r) ∷ rs) =
    if is_str (get "object_id" r) name then r ∷ residuals_of name rs else residuals_of name rs

abbrev key_or_error : Option Json → Result Json
key_or_error none = err (key_error "residual_id")
key_or_error (some v) = ok v

module _ ⦃env : Env⦄ where
  -- `str(item["residual_id"])` of each.
  unfoldable pub residual_ids : List Dict → Result (List String)
  unfolding to_text
  residual_ids [] = ok []
  residual_ids (r ∷ rs) =
      bind_result (key_or_error (get "residual_id" r))
        (λ id. bind_result (residual_ids rs) (λ ids. ok (to_text id ∷ ids)))

  -- The ledger entry of an integration that was asked for too early.
  abbrev pub early_residual : String → ResidualSpec
  early_residual name =
      residual_spec "settlement_blocker"
        "Workcell integration was requested before critique, revision, and verification completed."
        true "task" name (name ∷ []) "ccr.workcell.integration"

  -- The ledger entry of a claim that something contradicts.
  abbrev pub conflict_residual : String → Gathered → ResidualSpec
  conflict_residual name claim =
      residual_spec "unverified_claim"
        ("Unresolved workcell contradiction for claim " <> (claim.claim_id <> ".")) true "task" name
        (distinct_texts claim.contradictions) "ccr.workcell.integration"

  -- `save_residual(root, residual)` of a new entry; returns its identifier.
  unfoldable pub save_new : ResidualSpec → Exec String
  unfolding build_residual save_residual to_text
  save_new spec = do
    residual ← build_residual spec
    _ ← save_residual residual
    pure (to_text (get_default (get "residual_id" residual) null))

  unfoldable pub save_early : String → String → Exec (List String)
  unfolding save_new protocol_complete
  save_early name stage =
      if protocol_complete stage
      then pure []
      else (save_new (early_residual name) >>= λ id. pure (id ∷ []))

  abbrev pub is_contradicted : List String → Bool
  is_contradicted [] = false
  is_contradicted (_ ∷ _) = true

  -- The loop over the claims.
  unfoldable pub save_conflicts : String → List Gathered → Exec (List String)
  unfolding save_new
  save_conflicts name [] = pure []
  save_conflicts name (claim ∷ claims) =
      let rest = save_conflicts name claims in
      if is_contradicted (distinct_texts claim.contradictions)
      then (save_new (conflict_residual name claim) >>= λ id. (rest >>= λ ids. pure (id ∷ ids)))
      else rest

  abbrev pub minority_of : List Gathered → List Gathered
  minority_of [] = []
  minority_of (g ∷ gs) =
      if leb (effective_support_count g) 1 then g ∷ minority_of gs else minority_of gs

  abbrev pub claims_json : List Gathered → Json
  claims_json gs = arr (items (map (λ g. obj (settle_claim g)) gs))

  -- What `integrate_workcell` returns and stores.
  abbrev pub integration_report : String → String → List Gathered → List File → List String → Dict
  integration_report name stage claims files preserved = dict (
      ("claims", claims_json claims)
      ∷ ("correlated_support_discounted", bool true)
      ∷ ("integrated_submissions", arr (strings (map (λ f. path_text f.0) files)))
      ∷ ("minority_reports", claims_json (minority_of claims))
      ∷ ("ok", bool true)
      ∷ ("open_residuals_preserved", arr (strings (sorted_set preserved)))
      ∷ ("protocol_complete", bool (protocol_complete stage))
      ∷ ("schema_version", str "ccr.workcell_integrate.v2")
      ∷ ("settled", bool false)
      ∷ ("stage", str "integration")
      ∷ ("strategy", str "residual-preserving")
      ∷ ("workcell", str name)
      ∷ [])

  -- `integrate_workcell`
  unfoldable pub integrate_workcell : String → String → Exec Dict
  unfolding load_metadata current_stage glob_sorted integrate_claims save_early save_conflicts
      named_in now_iso write_file residual_ids protocol_complete settle_claim path_text
  integrate_workcell name strategy = do
    _ ← lift (validate_identifier name "workcell")
    require (str_eq strategy "residual-preserving")
        (value_error "only residual-preserving strategy is supported")
    metadata ← load_metadata name
    files ← gets (λ w. glob_sorted (all_submissions name) w.files)
    claims ← lift (integrate_claims (objects_of files))
    early ← save_early name (current_stage metadata)
    conflicts ← save_conflicts name claims
    open_residuals ← gets (λ w. residuals_of name (named_in "open" w.files))
    at ← now_iso
    write_file (workcell_file name) (obj (integrated at metadata))
    ids ← lift (residual_ids open_residuals)
    let report =
        integration_report name (current_stage metadata) claims files (ids ++ (early ++ conflicts))
    write_file (integration_file name) (obj report)
    pure report
