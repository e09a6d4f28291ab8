-- ===== src/Optimizer/Plans.antt =====
-- optimizer/growth_model.py: the parts of `normalize` that check actions.
use collective_capability_ru.Prelude.{
  String, Bool, true, false, not, ◌||◌, Option, none, some, List, [], ◌∷◌, map, length, leb, str_eq,
  elem,
}
use collective_capability_ru.Prelude.Int.{ℤ, pos}
use collective_capability_ru.Prelude.Map.{string_eq, lookup}
use collective_capability_ru.Result.{
  Result, ok, err, value_error, key_error, type_error, require, ◌>>=◌, ◌>>◌,
}
use collective_capability_ru.Json.{Json, Items, Dict, null, str, arr, nil, cons}
use collective_capability_ru.Json.Equality.{object_of}
use collective_capability_ru.Json.Fields.{contains}
use collective_capability_ru.Json.Python.{is_str, member_of}
use collective_capability_ru.Ids.{validate_identifier}
use collective_capability_ru.Optimizer.Journal.{field}
use collective_capability_ru.Optimizer.Values.{subset, same_set, closed, integer, integers, unique}
use collective_capability_ru.Optimizer.Lineage.{Parents, parents_of}
use collective_capability_ru.Optimizer.Profile.{Checked, checked_at, asset_names, one_of, is_zero}

-- `MAPPING`, whose keys are `KINDS`.
abbrev pub mapping : List (String × String)
mapping =
    ("formation", "distillation")
    ∷ ("transfer_validation", "verification")
    ∷ ("reuse", "independent_proposal")
    ∷ ("verification_investment", "measurement")
    ∷ ("repair", "residual_repair")
    ∷ ("service", "independent_proposal")
    ∷ ("diagnostic", "measurement")
    ∷ ("revalidation", "verification")
    ∷ []

abbrev pub kinds : List String
kinds = map (λ m. m.0) mapping

-- The texts under a key of the objects in a list.
unfoldable pub ids_in : String → Items → Result (List (String × Dict))
unfolding field object_of
ids_in key nil = ok []
ids_in key (cons x xs) = do
  d ← object_of x
  id ← field key d
  rest ← ids_in key xs
  elim id [ str s ↦ ok ((s, d) ∷ rest) | _ ↦ err type_error ]

abbrev pub list_or_error : Json → Result Items
list_or_error (arr xs) = ok xs
list_or_error _ = err type_error

unfoldable pub arms_in : String → String → Dict → Result (List (String × Dict))
unfolding field ids_in
arms_in list key base = do v ← field list base; xs ← list_or_error v; ids_in key xs

-- `arms[id]`, of distinct identifiers, and `MAPPING[kind]`
abbrev pub entry_at : {A : Type 0} → String → List (String × A) → Result A
entry_at key table = elim (lookup key table) [ none ↦ err (key_error key) | some v ↦ ok v ]

abbrev pub as_text : Json → Result String
as_text (str s) = ok s
as_text _ = err type_error

-- What an action is checked against.
pub record Context : Type 0 where
  pub arms : List (String × Dict)
  pub targets : List String
  pub receivers : List String
  pub assets : Parents
  pub stages : List String
  pub costs : List String
  pub gains : List String

abbrev pub any_positive : List (String × ℤ) → Bool
any_positive [] = false
any_positive ((k, n) ∷ rest) = not (is_zero n) || any_positive rest

-- `action["produces"]` is `None` or a declared asset.
abbrev pub output : Parents → Json → Result (Option String)
output table null = ok none
output table v = do
  known ← member_of (some v) (asset_names table)
  require known (value_error "undeclared output asset")
  asset ← as_text v
  ok (some asset)

abbrev pub truthy_output : Option String → Bool
truthy_output none = false
truthy_output (some _) = true

abbrev pub same : Bool → Bool → Bool
same true b = b
same false b = not b

-- The parents of what is produced are exactly what is required.
unfoldable pub binds_parents : Parents → Option String → List String → Checked
unfolding parents_of same_set
binds_parents table none requires = ok tt
binds_parents table (some asset) requires =
    require (same_set (parents_of table asset) requires)
      (value_error "formation prerequisites must bind every parent")

-- An action's kind, and the arm that carries it out.
unfoldable pub action_arm : Context → Dict → Result (String × Dict)
unfolding field member_of
action_arm c action = do
  kind ← field "kind" action
  known ← member_of (some kind) kinds
  require known (value_error "unsupported intervention")
  intervention ← field "intervention_id" action
  registered ← member_of (some intervention) (map (λ a. a.0) c.arms)
  require registered (value_error "unsupported intervention")
  name ← as_text kind
  id ← as_text intervention
  arm ← entry_at id c.arms
  role ← entry_at name mapping
  carried ← field "kind" arm
  require (is_str (some carried) role) (value_error "intervention worker role mismatch")
  ok (name, arm)

-- What an action takes, makes and measures.
unfoldable pub action_flow : Context → String → Dict → Checked
unfolding field unique integers binds_parents subset
action_flow c kind action = do
  needed ← field "requires" action
  requires ← unique 128 needed
  require (subset requires (asset_names c.assets)) (value_error "unknown prerequisite asset")
  made ← field "produces" action
  produces ← output c.assets made
  measured ← field "service_measurement" action
  service ← integers measured c.stages
  require (not (any_positive service) || str_eq kind "verification_investment")
      (value_error "service measurements require verifier investment")
  require (not (str_eq kind "verification_investment") || truthy_output produces)
      (value_error "service investment needs a versioned evidence asset")
  binds_parents c.assets produces requires
  checked_at (λ v. integers v c.stages) "verification_work" action
  evidence ← field "evidence_refs" action
  refs ← unique 128 evidence
  require (leb 1 (length refs)) (value_error "forecast provenance required")

-- The declaration of one action.
unfoldable pub check_action : Context → String → Json → Checked
unfolding validate_identifier closed action_arm field integers integer action_flow contains
    member_of
check_action c name value = do
  _ ← validate_identifier name "action"
  action ← closed value (
      "kind" ∷ "intervention_id" ∷ "target_id" ∷ "receiver" ∷ "requires" ∷ "produces" ∷ "gains"
      ∷ "duration_seconds" ∷ "cleanup_seconds" ∷ "cleanup_cost" ∷ "capacity" ∷ "verification_work"
      ∷ "authority" ∷ "evidence_refs" ∷ "service_measurement" ∷ [])
  found ← action_arm c action
  let kind = found.0
  let arm = found.1
  checked_at (one_of c.targets "unknown target or receiver") "target_id" action
  checked_at (one_of c.receivers "unknown target or receiver") "receiver" action
  checked_at (λ v. integers v c.costs) "resource_upper_bound" arm
  checked_at (λ v. integers v c.costs) "cleanup_cost" action
  expected ← field "gains" action
  gains ← integers expected c.gains
  require (elem kind ("service" ∷ "reuse" ∷ []) || not (any_positive gains))
      (value_error "preparation is not observed service")
  checked_at (integer (pos 1) (pos 86400)) "duration_seconds" action
  checked_at (integer (pos 1) (pos 86400)) "cleanup_seconds" action
  authority ← field "authority" action
  supported ← member_of (some authority) ("local_only" ∷ "operation_approval_required" ∷ [])
  require supported (value_error "unsupported authority")
  require
      (same (contains "operation_plan" arm) (is_str (some authority) "operation_approval_required"))
      (value_error "external work must use existing operation approval")
  action_flow c kind action
