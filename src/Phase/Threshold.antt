-- ===== src/Phase/Threshold.antt =====
-- phase/threshold.py: `evaluate_threshold` and its parts.
use collective_capability_ru.Prelude.{
  String, Bool, true, false, not, Option, none, some, List, [], ◌∷◌, ◌++◌, map, str_eq,
  if◌then◌else◌,
}
use collective_capability_ru.Prelude.Int.{pos, negsuc}
use collective_capability_ru.Prelude.Text.{◌<>◌}
use collective_capability_ru.Result.{Result, ok, ◌>>=◌}
use collective_capability_ru.Json.{Json, Dict, finite, bool, int, float, str, obj, dict}
use collective_capability_ru.Json.Fields.{get}
use collective_capability_ru.Json.Python.{get_default, is_str, truthy}
use collective_capability_ru.Json.Equality.{json_eq}
use collective_capability_ru.Env.{Env, to_text}
use collective_capability_ru.Floats.{Floats, at_least, least}
use collective_capability_ru.Packets.Gates.{is_clean}
use collective_capability_ru.Phase.Eligibility.{as_number}

-- `0.0`, `0.5` and `0.1`, the nearest float to a tenth
abbrev zero_float : Json
zero_float = float (finite false 0 (pos 0))

abbrev half_float : Json
half_float = float (finite false 1 (negsuc 0))

abbrev tenth_float : Json
tenth_float = float (finite false 3602879701896397 (negsuc 54))

-- `default_threshold`
abbrev default_threshold : String → Dict
default_threshold profile = dict (
    ("maximum_false_liquidity_load", half_float)
    ∷ ("maximum_residual_debt", zero_float)
    ∷ ("maximum_salience_obstruction", half_float)
    ∷ ("minimum_accepted_packet_count", int (pos 1))
    ∷ ("minimum_closure_witness_count", int (pos 0))
    ∷ ("minimum_effective_edge_count", int (pos 1))
    ∷ ("minimum_execution_available_path_density", tenth_float)
    ∷ ("minimum_verification_throughput", tenth_float)
    ∷ ("profile", str profile)
    ∷ ("required_authority_status", str "explicit-scope-bounded")
    ∷ ("required_identity_mode", str "declared")
    ∷ ("required_rollback_availability", bool true)
    ∷ ("schema_version", str "ccr.asi_proxy_threshold.v1")
    ∷ ("threshold_id", str ("asi-proxy-" <> profile))
    ∷ [])

-- `_coordinate_known`
abbrev pub known_in : Option Json → String → Bool
known_in (some (obj statuses)) key = is_str (get key statuses) "known"
known_in _ key = true

unfoldable pub coordinate_known : Dict → String → Bool
coordinate_known observation key = known_in (get "coordinate_status" observation) key

-- The observed value and its limit, where the coordinate is known and both are numbers.
abbrev pub both : Bool → Option Json → Option Json → Option (Json × Json)
both true (some x) (some y) = some (x, y)
both _ _ _ = none

unfoldable pub measured : Dict → String → Dict → String → Option (Json × Json)
unfolding coordinate_known
measured observation key threshold limit =
    both (coordinate_known observation key) (as_number (get key observation))
      (as_number (get limit threshold))

-- A pair that is compared: the key of the observation, and the key of its limit.
pub record Test : Type 0 where
  pub component : String
  pub observed : String
  pub limit : String
  -- at least the limit, or at most
  pub upward : Bool

abbrev pub lower_limit : String → String → String → Test
lower_limit component observed limit = record {
  component = component;
  observed = observed;
  limit = limit;
  upward = true;
}

abbrev pub upper_limit : String → String → String → Test
upper_limit component observed limit = record {
  component = component;
  observed = observed;
  limit = limit;
  upward = false;
}

-- The eight comparisons of `evaluate_threshold`.
abbrev pub tests : List Test
tests =
    lower_limit "accepted_packet_count" "positive_packet_count" "minimum_accepted_packet_count"
    ∷ lower_limit "effective_edge_count" "effective_edge_count" "minimum_effective_edge_count"
    ∷ lower_limit "execution_available_path_density" "execution_available_path_density"
        "minimum_execution_available_path_density"
    ∷ lower_limit "closure_witness_count" "closure_witness_count" "minimum_closure_witness_count"
    ∷ upper_limit "residual_debt" "residual_debt" "maximum_residual_debt"
    ∷ upper_limit "false_liquidity_load" "false_liquidity_load" "maximum_false_liquidity_load"
    ∷ upper_limit "salience_obstruction" "salience_obstruction_load" "maximum_salience_obstruction"
    ∷ lower_limit "verification_throughput" "verification_throughput"
        "minimum_verification_throughput"
    ∷ []

-- The pairs of `_threshold_distance`: an observed value, its limit, and whether it is to be above.
abbrev pub pairs : List Test
pairs =
    lower_limit "accepted_packet_count" "positive_packet_count" "minimum_accepted_packet_count"
    ∷ lower_limit "effective_edge_count" "effective_edge_count" "minimum_effective_edge_count"
    ∷ lower_limit "execution_available_path_density" "execution_available_path_density"
        "minimum_execution_available_path_density"
    ∷ lower_limit "verification_throughput" "verification_throughput"
        "minimum_verification_throughput"
    ∷ upper_limit "residual_debt" "residual_debt" "maximum_residual_debt"
    ∷ upper_limit "false_liquidity_load" "false_liquidity_load" "maximum_false_liquidity_load"
    ∷ []

abbrev pub Components : Type 0
Components = List (String × Bool)

unfoldable pub failed_of : Components → List String
failed_of [] = []
failed_of ((key, passed) ∷ rest) = if passed then failed_of rest else key ∷ failed_of rest

-- `component_status[key]`
unfoldable pub passed_at : String → Components → Bool
passed_at key [] = true
passed_at key ((k, passed) ∷ rest) = if str_eq k key then passed else passed_at key rest

module _ ⦃floats : Floats⦄ where
  abbrev pub within : Bool → floats.Number → floats.Number → Bool
  within true x y = at_least x y
  within false x y = at_least y x

  abbrev pub compared : Bool → Option (Json × Json) → Result Bool
  compared upward none = ok false
  compared upward (some (observed, limit)) =
      floats.of_json observed >>= λ x. floats.of_json limit >>= λ y. ok (within upward x y)

  -- `_at_least` and `_at_most`
  unfoldable pub passes_test : Dict → Dict → Test → Result Bool
  unfolding measured
  passes_test observation threshold t =
      compared t.upward (measured observation t.observed threshold t.limit)

  unfoldable pub test_all : Dict → Dict → List Test → Result Components
  unfolding passes_test
  test_all observation threshold [] = ok []
  test_all observation threshold (t ∷ ts) = passes_test observation threshold t >>= λ passed.
      test_all observation threshold ts >>= λ rest. ok ((t.component, passed) ∷ rest)

  -- `-1.0`
  abbrev pub minus_one : floats.Number
  minus_one = floats.negate (floats.literal 1)

  abbrev pub signed_gap : Bool → floats.Number → floats.Number
  signed_gap true d = floats.mul (floats.literal 1) d
  signed_gap false d = floats.mul minus_one d

  abbrev pub gap_of : Bool → Option (Json × Json) → Result floats.Number
  gap_of upward none = ok minus_one
  gap_of upward (some (observed, limit)) = floats.of_json observed >>= λ x.
      floats.of_json limit >>= λ y. ok (signed_gap upward (floats.sub x y))

  unfoldable pub gaps_of : Dict → Dict → List Test → Result (List floats.Number)
  unfolding measured
  gaps_of observation threshold [] = ok []
  gaps_of observation threshold (t ∷ ts) =
      gap_of t.upward (measured observation t.observed threshold t.limit) >>= λ gap.
      gaps_of observation threshold ts >>= λ rest. ok (gap ∷ rest)

  -- `min(gaps)`, with `0.0` for none.
  unfoldable pub least_from : floats.Number → List floats.Number → floats.Number
  least_from x [] = x
  least_from x (y ∷ ys) = least_from (least x y) ys

  abbrev pub least_of : List floats.Number → floats.Number
  least_of [] = floats.literal 0
  least_of (x ∷ xs) = least_from x xs

  -- `_threshold_distance`
  unfoldable pub threshold_distance : Dict → Dict → Components → Result floats.Number
  unfolding gaps_of passed_at least_from
  threshold_distance observation threshold components =
      gaps_of observation threshold pairs >>= λ gaps.
      ok (least_of (if passed_at "not_executed" components then gaps else gaps ++ (minus_one ∷ [])))

  -- What `evaluate_threshold` reports, its constant fields aside.
  pub record Status : Type 0 where
    pub accepted : Bool
    pub abstention_reasons : List String
    pub certificate_status : String
    pub component_status : Components
    pub failed_components : List String
    pub observation_id : Json
    pub status_id : String
    pub threshold_distance : floats.Number

-- `observation.get("executed_path_count", 0) == 0`
unfoldable pub not_executed : Dict → Bool
unfolding json_eq
not_executed observation =
    json_eq (get_default (get "executed_path_count" observation) (int (pos 0))) (int (pos 0))

unfoldable pub non_claims_preserved : Dict → Bool
non_claims_preserved observation =
    not (truthy (get_default (get "proves_real_asi" observation) (bool false)))

module _ ⦃env : Env⦄ ⦃floats : Floats⦄ where
  -- `component_status`
  unfoldable pub components_of : Dict → Dict → Result Components
  unfolding test_all not_executed non_claims_preserved
  components_of observation threshold = test_all observation threshold tests >>= λ compared. ok (
      compared
      ++ (("not_executed", not_executed observation)
          ∷ ("non_claims_preserved", non_claims_preserved observation)
          ∷ []))

  unfoldable pub evaluate_threshold : Dict → Dict → Result Status
  unfolding components_of failed_of threshold_distance
  evaluate_threshold observation threshold = components_of observation threshold >>= λ components.
      threshold_distance observation threshold components >>= λ distance.
      let failed = failed_of components in
      ok (record {
        accepted = is_clean failed;
        abstention_reasons = map (λ key. "component failed: " <> key) failed;
        certificate_status = if is_clean failed then "accepted" else "abstain";
        component_status = components;
        failed_components = failed;
        observation_id = get_default (get "observation_id" observation) (str "");
        status_id =
            "threshold-status:"
            <> to_text (get_default (get "observation_id" observation) (str "unknown"));
        threshold_distance = distance;
      })
