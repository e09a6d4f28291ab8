-- ===== src/Operations.antt =====
-- operations/approval.py: approvals that are bound to one plan, provider and configuration.
pub mod Create
pub mod Registry
pub mod Consume
pub mod Uses
pub mod Replay
pub mod Nonces
use Prim.Native.Char.{Char, code}
use Prim.Native.String.{String}
use collective_capability_ru.Prelude.{
  ℕ, Bool, true, false, not, ◌&&◌, ◌||◌, Option, none, some, List, [], ◌∷◌, str_eq, elem, leb, ◌==◌,
  if◌then◌else◌,
}
use collective_capability_ru.Prelude.Map.{FilePath}
use collective_capability_ru.Prelude.Text.{is_empty}
use collective_capability_ru.Result.{
  Result, ok, err, value_error, key_error, type_error, ◌>>=◌ as bind_result,
}
use collective_capability_ru.Json.{
  Json, Items, Dict, null, bool, int, float, str, arr, obj, nil, cons, end, entry, dict,
}
use collective_capability_ru.Json.Fields.{get}
use collective_capability_ru.Json.Python.{get_default}
use collective_capability_ru.Json.Equality.{iterate}
use collective_capability_ru.Env.{Env}
use collective_capability_ru.Ids.{json_file_name, validate_identifier}

-- `_required_approver_count`; a list or a dict is not hashable.
unfoldable pub required_approvers : Option Json → Result ℕ
required_approvers (some (arr _)) = err type_error
required_approvers (some (obj _)) = err type_error
required_approvers (some (str s)) =
    ok (
      if elem s ("physical_provider_allowed" ∷ "irreversible_operation_allowed" ∷ []) then 2 else 1)
required_approvers _ = ok 1

is_space : Char → Bool
is_space c = let n = code c in n == 32 || n == 9 || n == 10 || n == 11 || n == 12 || n == 13

lstrip : String → String
unfolding is_space
lstrip String.[] = String.[]
lstrip (String.◌∷◌ c s) = let rest = lstrip s in if is_space c then rest else String.◌∷◌ c s

rstrip : String → String
unfolding is_space
rstrip String.[] = String.[]
rstrip (String.◌∷◌ c s) =
    let rest = rstrip s in if is_empty rest && is_space c then String.[] else String.◌∷◌ c rest

-- `[item.strip() for item in approvers if item.strip()]`, of ASCII spaces.
unfoldable pub stripped : List String → List String
unfolding lstrip rstrip
stripped [] = []
stripped (s ∷ ss) =
    let rest = stripped ss in
    let bare = rstrip (lstrip s) in if is_empty bare then rest else bare ∷ rest

unfoldable pub found_dict : String → Option Json → Result Dict
found_dict key none = err (key_error key)
found_dict key (some (obj v)) = ok v
found_dict key (some _) = err type_error

-- `d[key]`, of a dictionary that holds one there.
unfoldable pub dict_at : String → Dict → Result Dict
unfolding found_dict
dict_at key d = found_dict key (get key d)

or_null : Option Json → Json
or_null v = get_default v null

-- `_plan_scope`
scope_of : Dict → Dict
unfolding or_null
scope_of o = dict (
    ("action_type", or_null (get "action_type" o))
    ∷ ("authority_envelope", or_null (get "authority_envelope" o))
    ∷ ("input_ref", or_null (get "input_ref" o))
    ∷ ("postcondition", or_null (get "postcondition" o))
    ∷ ("precondition", or_null (get "precondition" o))
    ∷ ("step_id", or_null (get "step_id" o))
    ∷ ("tool_call", or_null (get "tool_call" o))
    ∷ ("validity_domain", or_null (get "validity_domain" o))
    ∷ [])

scopes : List Json → Items
unfolding scope_of
scopes [] = nil
scopes (obj o ∷ xs) = cons (obj (scope_of o)) (scopes xs)
scopes (_ ∷ xs) = scopes xs

resources : List Json → Items
unfolding or_null
resources [] = nil
resources (obj o ∷ xs) = cons (or_null (get "resource_use" o)) (resources xs)
resources (_ ∷ xs) = resources xs

operations_of : Dict → Result (List Json)
operations_of plan = iterate (get_default (get "operations" plan) (arr nil))

unfoldable pub plan_scope : Dict → Result Json
unfolding scopes operations_of
plan_scope plan = bind_result (operations_of plan) (λ xs. ok (arr (scopes xs)))

-- `_plan_resources`
unfoldable pub plan_resources : Dict → Result Json
unfolding resources operations_of
plan_resources plan = bind_result (operations_of plan) (λ xs. ok (arr (resources xs)))

-- The configuration without the approval's locator and nonce.
abbrev pub bound_config : Dict → Dict
bound_config end = end
bound_config (entry k v d) =
    let rest = bound_config d in
    if elem k ("operator_approval_ref" ∷ "approval_nonce" ∷ []) then rest else entry k v rest

-- `approval_path`
unfoldable pub approval_path : String → Result FilePath
approval_path id =
    bind_result (validate_identifier id "approval_id")
      (λ _. bind_result (json_file_name id) (λ name. ok ("operations" ∷ "approvals" ∷ name ∷ [])))

-- What an approval is bound to.
pub record Binding : Type 0 where
  pub plan : String
  pub config : String
  pub scope : String
  pub resources : String

-- Without an expiry an approval is over.
abbrev pub over_at : Option ℕ → ℕ → Bool
over_at none now = true
over_at (some e) now = leb e now

module _ ⦃env : Env⦄ where
  -- `dispatch_config_digest`
  unfoldable pub dispatch_config_digest : Dict → String
  dispatch_config_digest config = env.sha256 (obj (bound_config config))

  -- `_parse_time`: an instant with a zone.
  unfoldable pub parse_time : Option Json → Option ℕ
  parse_time (some (str s)) = if is_empty s then none else elim (env.from_iso s) [
    | none ↦ none
    | some m ↦ (if m.aware then some m.micros else none)
  ]
  parse_time _ = none

  unfoldable pub binding_of : Dict → Dict → Result Binding
  unfolding dispatch_config_digest
  binding_of plan config = bind_result (plan_scope plan) (λ scope.
      bind_result (plan_resources plan) (λ used. ok (record {
        plan = env.sha256 (obj plan);
        config = dispatch_config_digest config;
        scope = env.sha256 scope;
        resources = env.sha256 used;
      })))
