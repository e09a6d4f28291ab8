-- ===== src/Tests/Phases.antt =====
-- Runs of phase/eligibility.py and threshold.py, with whole numbers in the place of floats.
use collective_capability_ru.Prelude.{◌≡◌, ◌↔◌, refl, true, false, some, [], ◌∷◌, arith}
use collective_capability_ru.Prelude.Int.{pos}
use collective_capability_ru.Result.{ok}
use collective_capability_ru.Json.{Json, Dict, int, str, obj, arr, dict, strings}
use collective_capability_ru.Json.Fields.{get, contains}
use collective_capability_ru.Env.{to_text}
use collective_capability_ru.Packets.Gates.{is_clean}
use collective_capability_ru.Floats.{IsComparison}
use collective_capability_ru.Phase.Eligibility.{
  Eligibility, packet_eligibility, is_nonnegative, known,
}
use collective_capability_ru.Phase.Contributing.{packet_eligibility_positive_iff}
use collective_capability_ru.Phase.Threshold.{
  Status, evaluate_threshold, tests, not_executed, non_claims_preserved,
}
use collective_capability_ru.Phase.Accepting.{evaluate_threshold_accepted_iff}
use collective_capability_ru.Phase.Distance.{IsSubtraction, AllPass}
use collective_capability_ru.Tests.Numbers.{test_floats}
use collective_capability_ru.Tests.Setup.{test_env, world_of}

test_floats-IsComparison : IsComparison test_floats
test_floats-IsComparison = record { asym = λ x y h. ground arith; apart = λ x y h. ground arith }

test_floats-IsSubtraction : IsSubtraction test_floats
test_floats-IsSubtraction = record {
  upwards = λ x y h. ground arith;
  downwards = λ x y h. ground arith;
}

-- A checked packet without residuals, whose score is above its charges.
abbrev packet : Json → Json → Dict
packet load residuals = dict (
    ("packet_id", str "p1")
    ∷ ("status", str "checked")
    ∷ ("residuals", residuals)
    ∷ (
      "execution_availability",
      obj (dict (("mode", str "dry_run") ∷ ("side_effect_policy", str "none") ∷ [])),
    )
    ∷ (
      "metrics",
      obj (
          dict (
            ("reuse_score", int (pos 5))
            ∷ ("residual_load", load)
            ∷ ("hazard_load", int (pos 1))
            ∷ ("queue_load", int (pos 1))
            ∷ [])),
    )
    ∷ [])

abbrev no_residuals : Json
no_residuals = arr (strings [])

abbrev eligible : Eligibility
eligible = record {
  accepted_or_certificate_admissible = true;
  accumulated = false;
  available = false;
  authority_valid = true;
  blocking_residual_ids = [];
  candidate_only = false;
  coordinates = record {
    reuse_score = known (pos 5);
    residual_load = known (pos 2);
    hazard_load = known (pos 1);
    queue_load = known (pos 1);
  };
  execution_available = true;
  liquidity = some (pos 1);
  positive_contribution = true;
  reasons = [];
  residuals_preserved = true;
  status = "checked";
}

checked_packet_counts :
    packet_eligibility (packet (int (pos 2)) no_residuals) (some []) (world_of [] []) ≡ ok eligible
unfolding packet_eligibility get to_text contains is_clean
checked_packet_counts = refl

packet_eligibility_positive_iff_example :
    ((eligible.positive_contribution ≡ true)
      ↔ ((eligible.reasons ≡ []) × (is_nonnegative eligible.liquidity ≡ true)))
    × (eligible.positive_contribution ≡ true
        → (eligible.accepted_or_certificate_admissible ≡ true) × (eligible.candidate_only ≡ false))
packet_eligibility_positive_iff_example =
    packet_eligibility_positive_iff (packet (int (pos 2)) no_residuals) (some []) (world_of [] [])
      eligible test_floats-IsComparison checked_packet_counts

-- An observation, of whole numbers, that meets its threshold.
abbrev observation : Dict
observation = dict (
    ("observation_id", str "o1")
    ∷ ("positive_packet_count", int (pos 3))
    ∷ ("effective_edge_count", int (pos 2))
    ∷ ("execution_available_path_density", int (pos 1))
    ∷ ("closure_witness_count", int (pos 0))
    ∷ ("residual_debt", int (pos 0))
    ∷ ("false_liquidity_load", int (pos 0))
    ∷ ("salience_obstruction_load", int (pos 0))
    ∷ ("verification_throughput", int (pos 1))
    ∷ [])

abbrev limits : Dict
limits = dict (
    ("minimum_accepted_packet_count", int (pos 1))
    ∷ ("minimum_effective_edge_count", int (pos 1))
    ∷ ("minimum_execution_available_path_density", int (pos 1))
    ∷ ("minimum_closure_witness_count", int (pos 0))
    ∷ ("maximum_residual_debt", int (pos 0))
    ∷ ("maximum_false_liquidity_load", int (pos 1))
    ∷ ("maximum_salience_obstruction", int (pos 1))
    ∷ ("minimum_verification_throughput", int (pos 1))
    ∷ [])

abbrev met : Status
met = record {
  accepted = true;
  abstention_reasons = [];
  certificate_status = "accepted";
  component_status =
      ("accepted_packet_count", true)
      ∷ ("effective_edge_count", true)
      ∷ ("execution_available_path_density", true)
      ∷ ("closure_witness_count", true)
      ∷ ("residual_debt", true)
      ∷ ("false_liquidity_load", true)
      ∷ ("salience_obstruction", true)
      ∷ ("verification_throughput", true)
      ∷ ("not_executed", true)
      ∷ ("non_claims_preserved", true)
      ∷ [];
  failed_components = [];
  observation_id = str "o1";
  status_id = "threshold-status:o1";
  threshold_distance = pos 0;
}

threshold_met : evaluate_threshold observation limits ≡ ok met
unfolding evaluate_threshold get is_clean to_text
threshold_met = refl

evaluate_threshold_accepted_iff_example :
    ((met.accepted ≡ true) ↔ (
      AllPass observation limits tests
      × (not_executed observation ≡ true)
      × (non_claims_preserved observation ≡ true)))
    × (met.accepted ≡ true → test_floats.lt met.threshold_distance (pos 0) ≡ false)
evaluate_threshold_accepted_iff_example =
    evaluate_threshold_accepted_iff observation limits met test_floats-IsSubtraction threshold_met
