-- ===== src/Optimizer/Normalize.antt =====
-- optimizer/growth_model.py: `normalize`, with the checks of quota, bundles, scenarios and comparison.
use collective_capability_ru.Prelude.{
  ℕ, String, Bool, true, false, ◌&&◌, some, List, [], ◌∷◌, map, length, leb,
}
use collective_capability_ru.Prelude.Int.{pos, pos_part}
use collective_capability_ru.Result.{Result, ok, err, value_error, require, ◌>>=◌, ◌>>◌}
use collective_capability_ru.Json.{Json, Dict, null, bool, str, obj}
use collective_capability_ru.Json.Equality.{json_eq, object_of}
use collective_capability_ru.Json.Fields.{set}
use collective_capability_ru.Json.Python.{is_str}
use collective_capability_ru.Env.{Env}
use collective_capability_ru.Optimizer.Journal.{field}
use collective_capability_ru.Optimizer.Values.{
  keys_of, subset, same_set, closed, text, integer, integers, unique,
}
use collective_capability_ru.Optimizer.Lineage.{Parents}
use collective_capability_ru.Optimizer.Terms.{check_terms}
use collective_capability_ru.Optimizer.Profile.{
  Checked, each, checked_at, dict_field, identifier, declared, check_receiver, check_lineages,
  check_stage,
}
use collective_capability_ru.Optimizer.Plans.{arms_in, check_action}

-- The quota of the study; returns its capacities.
unfoldable pub check_quota : Json → Dict → Result (List String)
unfolding closed field identifier text integers json_eq dict_field
check_quota quota costs = do
  q ←
      closed quota (
        "pool_id" ∷ "pool_budget" ∷ "pool_capacity" ∷ "budget" ∷ "capacity" ∷ "allocation_ref" ∷ [])
  checked_at (identifier "pool") "pool_id" q
  checked_at text "allocation_ref" q
  checked_at (λ v. integers v (keys_of costs)) "pool_budget" q
  checked_at (λ v. integers v (keys_of costs)) "budget" q
  budget ← field "budget" q
  require (json_eq budget (obj costs))
      (value_error "quota must cover the registered physical run budget")
  pool ← dict_field "pool_capacity" q
  checked_at (λ v. integers v (keys_of pool)) "pool_capacity" q
  checked_at (λ v. integers v (keys_of pool)) "capacity" q
  capacity ← dict_field "capacity" q
  ok (keys_of capacity)

-- `integers(action["capacity"], q["capacity"])`
unfoldable pub check_capacity : List String → Json → Checked
unfolding object_of field integers
check_capacity capacity action = do
  d ← object_of action
  checked_at (λ v. integers v capacity) "capacity" d

-- A bundle: known actions, each once, and not too many.
unfoldable pub check_bundle : List String → ℕ → String → Json → Checked
unfolding text unique subset
check_bundle actions most name steps = do
  _ ← text (str name)
  listed ← unique most steps
  require (leb 1 (length listed) && subset listed actions)
      (value_error "bundle must contain known, unique actions")

abbrev effect : Json → Checked
effect null = ok tt
effect (bool b) = ok tt
effect _ = err (value_error "success forecast is boolean or unknown")

-- A joint scenario: a forecast for every action.
unfoldable pub check_scenario : List String → Json → Checked
unfolding same_set each
check_scenario actions (obj d) = do
  require (same_set (keys_of d) actions) (value_error "joint scenarios must cover every action")
  each (λ _ v. effect v) d
check_scenario actions _ = err (value_error "joint scenarios must cover every action")

-- The comparison that was registered.
unfoldable pub check_comparison : List String → Json → Checked
unfolding closed field unique subset text
check_comparison bundles comparison = do
  c ← closed comparison ("restricted_bundles" ∷ "independent_unit" ∷ "uncertainty_method" ∷ [])
  listed ← field "restricted_bundles" c
  restricted ← unique 128 listed
  require (leb 1 (length restricted) && subset restricted bundles)
      (value_error "registered restricted comparator required")
  checked_at text "independent_unit" c
  method ← field "uncertainty_method" c
  require (is_str (some method) "unresolved")
      (value_error "growth v1 does not implement a causal or statistical estimator")

abbrev no_errors : List String → Bool
no_errors [] = true
no_errors (_ ∷ _) = false

module _ ⦃env : Env⦄ where
  -- The header of a profile; returns the growth terms.
  unfoldable pub check_header : Dict → Result Json
  unfolding closed field
  check_header raw = do
    require (no_errors (env.schema_errors "growth-profile" (obj raw)))
        (value_error "invalid growth profile")
    d ← closed (obj raw) ("schema_version" ∷ "policy" ∷ "base" ∷ "growth" ∷ [])
    version ← field "schema_version" d
    policy ← field "policy" d
    require
        (is_str (some version) "ccr.growth_profile.v1" && is_str (some policy) "verified_growth_v1")
        (value_error "explicit verified_growth_v1 profile required")
    field "growth" d

  -- The declarations from the verifier stages on.
  unfoldable pub check_plans : Dict → Dict → List String → Parents → Checked
  unfolding field each check_stage dict_field arms_in check_action check_quota check_capacity
      check_bundle check_scenario check_comparison integer
  check_plans g base receivers parents = do
    costs ← dict_field "resource_limits" base
    stages ← field "verifier_stages" g
    verifiers ← declared 1 8 "bounded verifier stages required" stages
    each check_stage verifiers
    planned ← field "actions" g
    actions ← declared 1 64 "1..64 finite actions required" planned
    arms ← arms_in "interventions" "intervention_id" base
    targets ← arms_in "task_manifest" "target_id" base
    goals ← dict_field "targets" g
    each
        (check_action (record {
          arms = arms;
          targets = map (λ t. t.0) targets;
          receivers = receivers;
          assets = parents;
          stages = keys_of verifiers;
          costs = keys_of costs;
          gains = keys_of goals;
        }))
        actions
    quota ← field "quota" g
    capacity ← check_quota quota costs
    each (λ _ action. check_capacity capacity action) actions
    offered ← field "bundles" g
    bundles ← declared 1 128 "1..128 bundles required" offered
    steps ← field "max_steps" g
    most ← integer (pos 1) (pos 8) steps
    each (check_bundle (keys_of actions) (pos_part most)) bundles
    forecasts ← field "scenarios" g
    scenarios ←
        declared 1 16 "1..16 explicit joint scenarios required; empty means inconsistent" forecasts
    each (λ _ scenario. check_scenario (keys_of actions) scenario) scenarios
    comparison ← field "comparison" g
    check_comparison (keys_of bundles) comparison

  -- The declarations below the terms; returns the parents of the assets.
  unfoldable pub check_declarations : Dict → Dict → Result Parents
  unfolding field each check_receiver check_lineages check_plans
  check_declarations g base = do
    listed ← field "receivers" g
    receivers ← declared 1 32 "bounded receiver declarations required" listed
    each check_receiver receivers
    assets ← field "assets" g
    parents ← check_lineages (keys_of receivers) assets
    check_plans g base (keys_of receivers) parents
    ok parents

  -- `normalize`, with what `normalize_config` makes of the base as an argument.
  unfoldable pub normalize : Dict → Result Dict → Result Dict
  unfolding check_header check_terms check_declarations
  normalize raw normalized = do
    growth ← check_header raw
    base ← normalized
    g ← check_terms growth base
    _ ← check_declarations g base
    ok (set "config_digest" (str (env.sha256 (obj raw))) (set "growth" (obj g) base))
