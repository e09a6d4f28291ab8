-- ===== src/Residuals/Lifecycle.antt =====
-- residuals/lifecycle.py: assignment, review, resolution and reopening of a residual.
pub mod Refines
pub mod Resolving
use collective_capability_ru.Prelude.{
  String, Bool, true, false, not, Option, none, some, List, [], ◌∷◌, if◌then◌else◌,
}
use collective_capability_ru.Prelude.Map.{string_eq, insert}
use collective_capability_ru.Prelude.Text.{is_empty}
use collective_capability_ru.Result.{
  Result, ok, err, value_error, file_not_found, key_error, type_error, require,
  ◌>>=◌ as bind_result, ◌>>◌ as then_result,
}
use collective_capability_ru.Json.{
  Json, Items, Dict, null, bool, str, arr, obj, nil, cons, end, dict,
}
use collective_capability_ru.Json.Fields.{get, set, update}
use collective_capability_ru.Json.Python.{is_str, is_true, as_dict, get_default, or_default, truthy}
use collective_capability_ru.Env.{Env}
use collective_capability_ru.Exec.{
  World, Exec, ResidualRow, pure, lift, now_iso, read_file, require_dict, write_file, unlink,
  transaction, ◌>>=◌, ◌>>◌,
}
use collective_capability_ru.Exec.Columns.{bind_all}
use collective_capability_ru.Ids.{validate_identifier}
use collective_capability_ru.Residuals.Store.{residual_path}

-- The two files that `resolve_residual` reads outside the runtime root: the artifact's path and the
-- digest of its bytes, if it is a file, and what reading the verifier's evidence gives.
pub record Evidence : Type 0 where
  pub artifact : String
  pub artifact_sha256 : Option String
  pub verifier : String
  pub verifier_data : Result Json

-- `_workflow(residual)`; the second function leaves the dicts that it made where they are missing.
abbrev pub workflow_of : Dict → Dict
workflow_of residual = as_dict (get "workflow" (as_dict (get "extensions" residual)))

abbrev pub with_workflow : Dict → Dict → Dict
with_workflow workflow residual =
    set "extensions" (obj (set "workflow" (obj workflow) (as_dict (get "extensions" residual))))
      residual

named_by : Json → Result String
named_by (str s) =
    if is_empty s
    then err (value_error "verifier evidence requires verifier_id or provider")
    else ok s
named_by _ = err (value_error "verifier evidence requires verifier_id or provider")

-- The identity of `verifier_data.get("verifier_id") or verifier_data.get("provider")`.
unfoldable pub identity_of : Dict → Result String
unfolding named_by
identity_of shown =
    named_by (or_default (get "verifier_id" shown) (get_default (get "provider" shown) null))

unfoldable pub object_data : Json → Result Dict
object_data (obj d) = ok d
object_data _ = err (value_error "verifier evidence must be a JSON object")

unfoldable pub artifact_digest : Evidence → Result String
artifact_digest e = elim e.artifact_sha256 [
  | none ↦ err (file_not_found e.artifact)
  | some d ↦ ok d
]

-- The checks of `resolve_residual` before its transaction: the artifact's digest and who verified it.
unfoldable pub check_evidence : Evidence → Result (String × String)
unfolding object_data artifact_digest
check_evidence e = bind_result (artifact_digest e) (λ digest. bind_result e.verifier_data (λ value.
    bind_result (object_data value) (λ shown.
      then_result
        (require (is_true (get "accepted" shown))
          (value_error "verifier evidence must explicitly accept the repair"))
        (bind_result (identity_of shown) (λ identity.
          then_result
            (require (is_str (get "artifact_sha256" shown) digest)
              (value_error "verifier evidence artifact digest does not match repair artifact"))
            (ok (digest, identity)))))))

text_key : String → Option Json → Result String
text_key key none = err (key_error key)
text_key key (some (str s)) = ok s
text_key key (some _) = err type_error

given : String → Option Json → Result Json
given key none = err (key_error key)
given key (some v) = ok v

insert_row : String → ResidualRow → Exec (Unit {0})
insert_row id row w =
    (ok tt, record w { db = record w.db { residuals = insert id row w.db.residuals } })

unfoldable pub append_json : Items → Json → Items
append_json nil v = cons v nil
append_json (cons x xs) v = cons x (append_json xs v)

-- The history with the resolution that is taken back: another value than a list counts as none.
unfoldable pub list_or_nil : Option Json → Items
list_or_nil (some (arr xs)) = xs
list_or_nil _ = nil

unfoldable pub append_object : Items → Option Json → Items
append_object xs (some (obj d)) = append_json xs (obj d)
append_object xs _ = xs

unfoldable pub history_with : Option Json → Option Json → Items
history_with history previous = append_object (list_or_nil history) previous

module _ ⦃env : Env⦄ where
  -- `_index`
  unfoldable pub index : Dict → Exec (Unit {0})
  unfolding text_key given insert_row bind_all
  index residual = do
    id ← lift (text_key "residual_id" (get "residual_id" residual))
    status ← lift (given "status" (get "status" residual))
    at ← now_iso
    lift (
        bind_all (
          some status
          ∷ get "kind" residual
          ∷ get "object_type" residual
          ∷ get "object_id" residual
          ∷ []))
    insert_row id (record {
      status = status;
      blocking = truthy (get_default (get "blocking" residual) (bool false));
      kind = get "kind" residual;
      object_type = get "object_type" residual;
      object_id = get "object_id" residual;
      updated_at = at;
    })

  update_body : String → String → String → String → Exec Dict
  update_body id state actor_key actor = do
    path ← lift (residual_path id "open")
    value ← read_file path (file_not_found id)
    residual ← require_dict value "residual must be a JSON object"
    at ← now_iso
    let workflow =
        update (workflow_of residual)
          ((actor_key, str actor) ∷ ("state", str state) ∷ ("updated_at", str at) ∷ [])
    updated_at ← now_iso
    let residual' = set "updated_at" (str updated_at) (with_workflow workflow residual)
    write_file path (obj residual')
    index residual'
    pure residual'

  -- `_update_open_workflow`
  unfoldable pub update_open_workflow : String → String → String → String → Exec Dict
  unfolding update_body
  update_open_workflow id state actor_key actor = do
    _ ← lift (validate_identifier id "residual_id")
    transaction (update_body id state actor_key actor)

  -- `assign_residual` and `review_residual`
  unfoldable pub assign_residual : String → String → Exec Dict
  assign_residual id agent = update_open_workflow id "assigned" "assignee" agent

  unfoldable pub review_residual : String → String → Exec Dict
  review_residual id reviewer = update_open_workflow id "under_review" "reviewer" reviewer

  -- The residual that `resolve_residual` files.
  abbrev pub resolved : Dict → Evidence → String → String → String → String → Dict
  resolved residual e digest identity resolved_at updated_at = set "updated_at" (str updated_at) (
      set "status" (str "resolved") (
        with_workflow (set "state" (str "resolved") (workflow_of residual)) (
          set "resolution"
            (obj (
              dict (
                ("artifact", str e.artifact)
                ∷ ("artifact_sha256", str digest)
                ∷ ("resolved_at", str resolved_at)
                ∷ ("verifier_evidence", str e.verifier)
                ∷ ("verifier_id", str identity)
                ∷ [])))
            (with_workflow (workflow_of residual) residual))))

  resolve_body : String → Evidence → String → String → Exec Dict
  resolve_body id e digest identity = do
    source ← lift (residual_path id "open")
    value ← read_file source (file_not_found id)
    residual ← require_dict value "residual must be a JSON object"
    lift (
        require (not (is_str (get "assignee" (workflow_of residual)) identity))
          (value_error "residual verifier must be independent from the assignee"))
    resolved_at ← now_iso
    updated_at ← now_iso
    let residual' = resolved residual e digest identity resolved_at updated_at
    destination ← lift (residual_path id "resolved")
    write_file destination (obj residual')
    unlink source
    index residual'
    pure residual'

  -- `resolve_residual`
  unfoldable pub resolve_residual : String → Evidence → Exec Dict
  unfolding resolve_body
  resolve_residual id e = do
    _ ← lift (validate_identifier id "residual_id")
    (digest, identity) ← lift (check_evidence e)
    transaction (resolve_body id e digest identity)

  -- The residual that `reopen_residual` files.
  abbrev pub reopened : Dict → String → String → Dict
  reopened residual reason updated_at = set "updated_at" (str updated_at) (
      set "status" (str "open") (
        set "resolution" (obj end) (
          with_workflow
            (update (workflow_of residual) (
              ("reopen_reason", str reason)
              ∷ (
                "resolution_history",
                arr (
                    history_with (get "resolution_history" (workflow_of residual))
                      (get "resolution" residual)),
              )
              ∷ ("state", str "open")
              ∷ []))
            residual)))

  reopen_body : String → String → Exec Dict
  reopen_body id reason = do
    source ← lift (residual_path id "resolved")
    value ← read_file source (file_not_found id)
    residual ← require_dict value "residual must be a JSON object"
    updated_at ← now_iso
    let residual' = reopened residual reason updated_at
    destination ← lift (residual_path id "open")
    write_file destination (obj residual')
    unlink source
    index residual'
    pure residual'

  -- `reopen_residual`
  unfoldable pub reopen_residual : String → String → Exec Dict
  unfolding reopen_body
  reopen_residual id reason = do
    _ ← lift (validate_identifier id "residual_id")
    transaction (reopen_body id reason)
