-- ===== src/Operations/Create.antt =====
-- operations/approval.py: `create_operation_approval`.
use collective_capability_ru.Prelude.{
  ℕ, String, Bool, true, false, not, Option, none, some, List, [], ◌∷◌, length, leb,
}
use collective_capability_ru.Prelude.Int.{ℤ, pos, leb_ℤ}
use collective_capability_ru.Prelude.Sorted.{sorted_set}
use collective_capability_ru.Result.{
  Result, ok, err, value_error, file_exists, require as check, ◌>>=◌ as bind_result,
  ◌>>◌ as then_result,
}
use collective_capability_ru.Json.{
  Items, Dict, null, bool, int, str, arr, obj, nil, cons, end, dict, strings,
}
use collective_capability_ru.Json.Fields.{get, set, contains}
use collective_capability_ru.Json.Python.{get_default}
use collective_capability_ru.Env.{Env}
use collective_capability_ru.Exec.{
  World, Exec, pure, lift, now_utc, now_iso, require, write_new_file, ◌>>=◌, ◌>>◌,
}
use collective_capability_ru.Ids.{stable_id, validate_identifier}
use collective_capability_ru.Control.{initialize, edit}
use collective_capability_ru.Operations.{
  required_approvers, stripped, dict_at, approval_path, parse_time, Binding, binding_of,
}

abbrev pub registry_key : String
registry_key = "operation:approvals"

-- The arguments of `create_operation_approval`.
pub record ApprovalSpec : Type 0 where
  pub plan : Dict
  pub provider : String
  pub config : Dict
  pub approvers : List String
  pub expires_at : String
  pub nonce : String
  pub max_uses : ℤ

attested : List String → Items
attested [] = nil
attested (s ∷ ss) =
    cons (obj (dict (("identity", str s) ∷ ("attested", bool true) ∷ []))) (attested ss)

no_errors : List String → Bool
no_errors [] = true
no_errors (_ ∷ _) = false

-- `registry.update(approvals={}, nonces={})`, in the body of the first edit.
empty_registry : Dict → String → Result (Dict × Unit {0})
empty_registry registry current =
    ok (set "nonces" (obj end) (set "approvals" (obj end) registry), tt)

-- The body of the second edit: one nonce is registered once.
unfoldable pub register : String → String → Dict → Dict → String → Result (Dict × Unit {0})
register nonce id approval registry current = bind_result (dict_at "nonces" registry) (λ nonces.
    then_result
      (check (not (contains nonce nonces)) (value_error "approval nonce already registered"))
      (bind_result (dict_at "approvals" registry) (λ approvals. ok (
        set "approvals"
            (obj (
              set id (obj (dict (("artifact", obj approval) ∷ ("use_count", int (pos 0)) ∷ [])))
                approvals))
            (set "nonces" (obj (set nonce (str id) nonces)) registry),
        tt,
      ))))

-- `except FileExistsError: pass`
tolerate_existing : {A : Type 0} → A → Result A × World → Result A × World
tolerate_existing a (ok b, w) = (ok b, w)
tolerate_existing a (err (file_exists name), w) = (ok a, w)
tolerate_existing a (err e, w) = (err e, w)

module _ ⦃env : Env⦄ where
  approval_id_of : ApprovalSpec → Binding → List String → String
  approval_id_of a b identities = stable_id "approval" (
      str b.plan
      ∷ str a.provider
      ∷ str b.config
      ∷ str b.scope
      ∷ str b.resources
      ∷ arr (strings identities)
      ∷ str a.expires_at
      ∷ str a.nonce
      ∷ int a.max_uses
      ∷ [])

  unfoldable pub approval_of : ApprovalSpec → Binding → List String → String → String → Dict
  unfolding attested
  approval_of a b identities id created_at = dict (
      ("approval_id", str id)
      ∷ ("approvers", arr (attested identities))
      ∷ ("config_digest", str b.config)
      ∷ ("created_at", str created_at)
      ∷ ("expires_at", str a.expires_at)
      ∷ ("max_uses", int a.max_uses)
      ∷ ("nonce", str a.nonce)
      ∷ ("plan_digest", str b.plan)
      ∷ ("plan_id", get_default (get "plan_id" a.plan) null)
      ∷ ("provider", str a.provider)
      ∷ ("resource_limits_digest", str b.resources)
      ∷ ("schema_version", str "ccr.operation_approval.v1")
      ∷ ("scope_digest", str b.scope)
      ∷ ("side_effect_policy", get_default (get "side_effect_policy" a.config) null)
      ∷ [])

  ensure_registry : Exec (Unit {0})
  unfolding empty_registry tolerate_existing
  ensure_registry w = tolerate_existing tt (edit registry_key true empty_registry w)

  future : Option ℕ → Exec Bool
  unfolding now_utc
  future none = pure false
  future (some e) = do now ← now_utc; pure (not (leb e now))

  -- `create_operation_approval`
  unfoldable pub create_operation_approval : ApprovalSpec → Exec Dict
  unfolding ensure_registry future approval_id_of no_errors
  create_operation_approval a = do
    _ ← lift (validate_identifier a.provider "provider")
    _ ← lift (validate_identifier a.nonce "approval nonce")
    let identities = sorted_set (stripped a.approvers)
    required ← lift (required_approvers (get "side_effect_policy" a.config))
    require (leb required (length identities))
        (value_error "operation requires distinct approver identities")
    require (leb_ℤ (pos 1) a.max_uses) (value_error "max_uses must be positive")
    in_future ← future (parse_time (some (str a.expires_at)))
    require in_future (value_error "expires_at must be a future timezone-aware timestamp")
    b ← lift (binding_of a.plan a.config)
    let id = approval_id_of a b identities
    created_at ← now_iso
    let approval = approval_of a b identities id created_at
    require (no_errors (env.schema_errors "operation-approval" (obj approval)))
        (value_error "invalid operation approval")
    initialize
    ensure_registry
    edit registry_key false (register a.nonce id approval)
    path ← lift (approval_path id)
    write_new_file path id (obj approval)
    pure approval
