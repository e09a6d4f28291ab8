-- ===== src/Operations/Consume.antt =====
-- operations/approval.py: `validate_and_consume_approval`.
use collective_capability_ru.Prelude.{
  ℕ, String, Bool, true, false, not, Option, none, some, List, [], ◌∷◌, length, leb, ltb, str_eq,
  if◌then◌else◌,
}
use collective_capability_ru.Prelude.Int.{pos, ◌+ℤ◌, leb_ℤ}
use collective_capability_ru.Prelude.Map.{string_eq, file_path_eq, lookup, insert}
use collective_capability_ru.Prelude.Sorted.{sorted_set}
use collective_capability_ru.Prelude.Text.{is_empty}
use collective_capability_ru.Result.{
  Result, ok, err, value_error, file_not_found, type_error, ◌>>=◌ as bind_result,
}
use collective_capability_ru.Json.{Json, Dict, null, str, arr, obj, nil, end}
use collective_capability_ru.Json.Fields.{get}
use collective_capability_ru.Json.Python.{is_str, is_true, get_default, truthy}
use collective_capability_ru.Json.Equality.{iterate, object_of, opt_eq}
use collective_capability_ru.Env.{Env, to_text}
use collective_capability_ru.Exec.{
  World, ApprovalRow, Exec, pure, lift, gets, now_utc, now_iso, read_file, transaction, ◌>>=◌, ◌>>◌,
}
use collective_capability_ru.Control.{read, edit}
use collective_capability_ru.Operations.{
  required_approvers, approval_path, parse_time, Binding, binding_of,
}
use collective_capability_ru.Operations.Create.{registry_key}
use collective_capability_ru.Operations.Registry.{Verdict, refused, consumed, value_at, use_once}

-- The name of the first check that fails.
first_failure : List (String × Bool) → Option String
first_failure [] = none
first_failure ((failure, passed) ∷ checks) = if passed then first_failure checks else some failure

identities_of : List Json → List Json
identities_of [] = []
identities_of (obj d ∷ xs) =
    let rest = identities_of xs in
    if is_true (get "attested" d)
    then (if truthy (get_default (get "identity" d) null)
        then get_default (get "identity" d) null ∷ rest
        else rest)
    else rest
identities_of (_ ∷ xs) = identities_of xs

-- Asking the clock, where there is an expiry.
is_over : Option ℕ → Exec Bool
is_over none = pure true
is_over (some e) = do now ← now_utc; pure (leb e now)

stored_dict : Json → Result Dict
stored_dict (obj d) = ok d
stored_dict _ = err (value_error "approval must be a JSON object")

indexable : Json → Result Dict
indexable (obj d) = ok d
indexable _ = err type_error

-- `except (FileNotFoundError, ValueError)`, around the loading only.
refuse_invalid : Exec Dict → (Dict → Exec Verdict) → Exec Verdict
refuse_invalid load next w = decide (load w)
  where
    decide : Result Dict × World → Result Verdict × World
    decide (ok approval, w') = next approval w'
    decide (err (file_not_found name), w') = (ok (refused "operator_approval_invalid" none), w')
    decide (err (value_error message), w') = (ok (refused "operator_approval_invalid" none), w')
    decide (err e, w') = (err e, w')

module _ ⦃env : Env⦄ where
  texts : List Json → List String
  texts [] = []
  texts (x ∷ xs) = to_text x ∷ texts xs

  -- The seven checks against the parameters of the dispatch.
  unfoldable pub binding_failure : Dict → String → Dict → Binding → Option String
  unfolding first_failure opt_eq
  binding_failure approval provider config b = first_failure (
      (
        "approval_schema_invalid",
        is_str (get "schema_version" approval) "ccr.operation_approval.v1",
      )
      ∷ ("approval_plan_mismatch", is_str (get "plan_digest" approval) b.plan)
      ∷ ("approval_provider_mismatch", is_str (get "provider" approval) provider)
      ∷ ("approval_config_mismatch", is_str (get "config_digest" approval) b.config)
      ∷ ("approval_scope_mismatch", is_str (get "scope_digest" approval) b.scope)
      ∷ ("approval_resource_mismatch", is_str (get "resource_limits_digest" approval) b.resources)
      ∷ ("approval_nonce_mismatch", opt_eq (get "nonce" approval) (get "approval_nonce" config))
      ∷ [])

  update_row : String → ApprovalRow → Exec (Unit {0})
  update_row id row w = (
    ok tt,
    record w {
      db = record w.db {
        approvals = insert id (record row { use_count = row.use_count +ℤ pos 1 }) w.db.approvals;
      };
    },
  )

  use_stored : String → Dict → Option ApprovalRow → Exec Verdict
  unfolding update_row is_over
  use_stored id approval none = pure (refused "approval_registry_mismatch" (some approval))
  use_stored id approval (some row) =
      if not (str_eq row.digest (env.sha256 (obj approval)))
      then pure (refused "approval_registry_mismatch" (some approval))
      else if leb_ℤ row.max_uses row.use_count
      then pure (refused "approval_replayed" (some approval))
      else (do
        over ← is_over (parse_time (some row.expires_at))
        if over
            then pure (refused "approval_expired" (some approval))
            else (do _ ← now_iso; update_row id row; pure (consumed approval)))

  -- The same for an approval from the time before the registry, in the table's own transaction.
  use_row : String → Dict → Exec Verdict
  unfolding use_stored
  use_row id approval = do row ← gets (λ w. lookup id w.db.approvals); use_stored id approval row

  -- The last part: the approval's parameters and expiry have been checked.
  take_use : Bool → String → Dict → Option ℕ → Exec Verdict
  unfolding use_row
  take_use true id approval expiry = edit registry_key false (use_once id approval expiry)
  take_use false id approval expiry = transaction (use_row id approval)

  -- Expiry and separation of duties, then one use.
  consume_checked : Bool → Dict → Dict → Exec Verdict
  unfolding take_use is_over identities_of texts
  consume_checked registered approval config = do
    let expiry = parse_time (get "expires_at" approval)
    over ← is_over expiry
    if over then pure (refused "approval_expired" (some approval)) else (do
      approvers ← lift (iterate (get_default (get "approvers" approval) (arr nil)))
      required ← lift (required_approvers (get "side_effect_policy" config))
      if ltb (length (sorted_set (texts (identities_of approvers)))) required
          then pure (refused "approval_separation_of_duties_failed" (some approval))
          else take_use registered (to_text (get_default (get "approval_id" approval) (str "")))
              approval expiry)

  judge : Option String → Bool → Dict → Dict → Exec Verdict
  unfolding consume_checked
  judge (some failure) registered approval config = pure (refused failure (some approval))
  judge none registered approval config = consume_checked registered approval config

  consume_loaded : Dict → String → Dict → Bool → Dict → Exec Verdict
  unfolding judge binding_of binding_failure
  consume_loaded plan provider config registered approval = do
    b ← lift (binding_of plan config)
    judge (binding_failure approval provider config b) registered approval config

  -- `_load_approval`, whose missing file or malformed name is a refusal.
  load_approval : String → Exec Dict
  unfolding stored_dict
  load_approval ref = do
    path ← lift (approval_path ref)
    value ← read_file path (file_not_found ref)
    lift (stored_dict value)

  consume_found : Dict → String → Dict → String → Json → Exec Verdict
  unfolding consume_loaded load_approval indexable refuse_invalid
  consume_found plan provider config ref registered =
      if truthy registered
      then (do
        found ← lift (indexable registered)
        value ← lift (value_at "artifact" (get "artifact" found))
        approval ← lift (object_of value)
        consume_loaded plan provider config true approval)
      else refuse_invalid (load_approval ref) (consume_loaded plan provider config false)

  registered_of : String → Option Dict → Result Json
  registered_of ref none = ok null
  registered_of ref (some end) = ok null
  registered_of ref (some registry) =
      bind_result (object_of (get_default (get "approvals" registry) (obj end)))
        (λ approvals. ok (get_default (get ref approvals) null))

  consume_ref : Dict → String → Dict → Option Json → Exec Verdict
  unfolding consume_found registered_of
  consume_ref plan provider config (some (str ref)) =
      if is_empty ref then pure (refused "operator_approval_required" none) else (do
        registry ← gets (read registry_key)
        registered ← lift (registered_of ref registry)
        consume_found plan provider config ref registered)
  consume_ref plan provider config _ = pure (refused "operator_approval_required" none)

  -- `validate_and_consume_approval`
  unfoldable pub validate_and_consume_approval : Dict → String → Dict → Exec Verdict
  unfolding consume_ref
  validate_and_consume_approval plan provider config =
      consume_ref plan provider config (get "operator_approval_ref" config)
