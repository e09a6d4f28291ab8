-- ===== src/Phase/Eligibility.antt =====
-- phase/eligibility.py: `packet_eligibility` and `_coordinate`.
use collective_capability_ru.Prelude.{
  String, Bool, true, false, not, ◌&&◌, ◌||◌, Option, none, some, List, [], ◌∷◌, ◌++◌, map, elem,
  str_eq, if◌then◌else◌,
}
use collective_capability_ru.Result.{Result, ok, ◌>>=◌}
use collective_capability_ru.Json.{Json, Dict, int, float, str, arr, nil}
use collective_capability_ru.Json.Fields.{get, contains}
use collective_capability_ru.Json.Python.{get_default, as_dict}
use collective_capability_ru.Json.Equality.{iterate}
use collective_capability_ru.Env.{Env, to_text}
use collective_capability_ru.Floats.{Floats, at_least}
use collective_capability_ru.Exec.{World}
use collective_capability_ru.Residuals.Store.{linked_open_blocking_residuals}
use collective_capability_ru.Packets.Gates.{embedded_blockers, is_clean, is_truthy, unless}

abbrev pub contributing_statuses : List String
contributing_statuses = "checked" ∷ "settled" ∷ []

abbrev pub effective_graph_statuses : List String
effective_graph_statuses = "checked" ∷ "provisional" ∷ "settled" ∷ []

abbrev pub diagnostic_only_statuses : List String
diagnostic_only_statuses =
    "raw" ∷ "proposed" ∷ "candidate" ∷ "speculative" ∷ "rejected" ∷ "quarantined" ∷ "deprecated"
    ∷ "expired" ∷ []

abbrev pub available_policies : List String
available_policies = "none" ∷ "dry_run_only" ∷ "sandbox_only" ∷ "operator_approval_required" ∷ []

-- `if test: reasons.append(reason)`
abbrev pub when : Bool → String → List String → List String
when test reason later = if test then reason ∷ later else later

-- `not isinstance(value, bool) and isinstance(value, int | float)`
abbrev pub as_number : Option Json → Option Json
as_number (some (int n)) = some (int n)
as_number (some (float x)) = some (float x)
as_number _ = none

module _ ⦃floats : Floats⦄ where
  -- A coordinate: its status, and its value where that is known. Unit and domain hang on these.
  pub data Coordinate : Type 0 where
    known : floats.Number → Coordinate
    unknown : Coordinate

  abbrev pub is_known : Coordinate → Bool
  is_known (known x) = true
  is_known unknown = false

  abbrev pub read_number : Option Json → Result Coordinate
  read_number none = ok unknown
  read_number (some v) =
      floats.of_json v >>= λ x. ok (if floats.lt x (floats.literal 0) then unknown else known x)

  -- `_coordinate`
  unfoldable pub coordinate : Option Json → Result Coordinate
  coordinate v = read_number (as_number v)

  pub record Coordinates : Type 0 where
    pub reuse_score : Coordinate
    pub residual_load : Coordinate
    pub hazard_load : Coordinate
    pub queue_load : Coordinate

  unfoldable pub coordinates_of : Dict → Result Coordinates
  unfolding coordinate
  coordinates_of metrics = do
    reuse ← coordinate (get "reuse_score" metrics)
    load ← coordinate (get "residual_load" metrics)
    hazard ← coordinate (get "hazard_load" metrics)
    queue ← coordinate (get "queue_load" metrics)
    ok (record {
      reuse_score = reuse;
      residual_load = load;
      hazard_load = hazard;
      queue_load = queue;
    })

  abbrev pub coordinates_known : Coordinates → Bool
  coordinates_known c =
      is_known c.reuse_score
      && is_known c.residual_load
      && is_known c.hazard_load
      && is_known c.queue_load

  -- The score less its charges, where all four are known.
  unfoldable pub lower_bound :
      Coordinate → Coordinate → Coordinate → Coordinate → Option floats.Number
  lower_bound (known a) (known b) (known c) (known d) =
      some (floats.sub (floats.sub (floats.sub a b) c) d)
  lower_bound _ _ _ _ = none

  unfoldable pub liquidity_lower_bound : Coordinates → Option floats.Number
  unfolding lower_bound
  liquidity_lower_bound c = lower_bound c.reuse_score c.residual_load c.hazard_load c.queue_load

  abbrev pub is_nonnegative : Option floats.Number → Bool
  is_nonnegative none = false
  is_nonnegative (some x) = at_least x (floats.literal 0)

  abbrev pub is_negative : Option floats.Number → Bool
  is_negative none = false
  is_negative (some x) = floats.lt x (floats.literal 0)

  -- The reasons for unknown coordinates, in the order of the dictionary.
  unfoldable pub missing : Coordinates → List String → List String
  missing c later =
      unless (is_known c.reuse_score) "missing explicit phase coordinate: reuse_score" (
        unless (is_known c.residual_load) "missing explicit phase coordinate: residual_load" (
          unless (is_known c.hazard_load) "missing explicit phase coordinate: hazard_load"
            (unless (is_known c.queue_load) "missing explicit phase coordinate: queue_load" later)))

  -- What is told of a packet; `executed` is always false.
  pub record Eligibility : Type 0 where
    pub accepted_or_certificate_admissible : Bool
    pub accumulated : Bool
    pub available : Bool
    pub authority_valid : Bool
    pub blocking_residual_ids : List String
    pub candidate_only : Bool
    pub coordinates : Coordinates
    pub execution_available : Bool
    pub liquidity : Option floats.Number
    pub positive_contribution : Bool
    pub reasons : List String
    pub residuals_preserved : Bool
    pub status : String

module _ ⦃env : Env⦄ where
  -- `str(d.get(key, default))`
  abbrev pub text_of_key : String → String → Dict → String
  text_of_key key default d = to_text (get_default (get key d) (str default))

  -- `authority_level` and `side_effect_policy` are inside the phase envelope.
  unfoldable pub authority_valid_of : Dict → Bool
  authority_valid_of packet =
      not (
        str_eq (text_of_key "authority_level" "none" (as_dict (get "risk" packet)))
          "external_side_effect")
      && not (
          str_eq
            (text_of_key "side_effect_policy" "none"
              (as_dict (get "execution_availability" packet)))
            "unsafe_not_allowed")

  unfoldable pub execution_available_of : Dict → Bool
  unfolding authority_valid_of
  execution_available_of packet =
      let execution = as_dict (get "execution_availability" packet) in
      not (
        elem (text_of_key "mode" "not_applicable" execution)
          ("not_applicable" ∷ "unknown" ∷ "" ∷ []))
      && authority_valid_of packet
      && elem (text_of_key "side_effect_policy" "none" execution) available_policies

  abbrev pub ledger_of : Dict → Option (List Dict) → World → List Dict
  ledger_of packet none w =
      linked_open_blocking_residuals (text_of_key "packet_id" "unknown" packet) w
  ledger_of packet (some given) w = given

  -- The embedded blockers, and those of the ledger unless the caller gives a snapshot.
  unfoldable pub blockers_of : Dict → Option (List Dict) → World → Result (List Dict)
  unfolding embedded_blockers iterate
  blockers_of packet snapshot w = do
    embedded ← iterate (get_default (get "residuals" packet) (arr nil))
    ok (embedded_blockers embedded ++ ledger_of packet snapshot w)

module _ ⦃env : Env⦄ ⦃floats : Floats⦄ where
  unfoldable pub contributes : String → List Dict → Bool → Coordinates → Bool
  unfolding liquidity_lower_bound
  contributes status blockers authority c =
      elem status contributing_statuses
      && is_clean blockers
      && authority
      && coordinates_known c
      && is_nonnegative (liquidity_lower_bound c)

  unfoldable pub eligibility_reasons : String → List Dict → Bool → Coordinates → List String
  unfolding missing liquidity_lower_bound
  eligibility_reasons status blockers authority c =
      unless (elem status effective_graph_statuses)
        "packet status is diagnostic-only for phase formation"
        (when (str_eq status "provisional")
          "provisional packets enter graph but do not settle phase coordinates"
          (unless (is_clean blockers) "blocking residuals prevent positive phase contribution" (
            unless authority "authority or side-effect policy is outside the phase envelope" (
              missing c (
                when (is_negative (liquidity_lower_bound c))
                  "liquidity lower bound is negative after residual and hazard charges" [])))))

  unfoldable pub packet_eligibility : Dict → Option (List Dict) → World → Result Eligibility
  unfolding blockers_of coordinates_of contributes eligibility_reasons authority_valid_of
      execution_available_of liquidity_lower_bound
  packet_eligibility packet snapshot w = do
    blockers ← blockers_of packet snapshot w
    c ← coordinates_of (as_dict (get "metrics" packet))
    let status = text_of_key "status" "candidate" packet
    let admissible = elem status effective_graph_statuses
    let accumulated = is_truthy (get "artifacts" packet)
    ok (record {
      accepted_or_certificate_admissible = admissible;
      accumulated = accumulated;
      available = admissible && accumulated;
      authority_valid = authority_valid_of packet;
      blocking_residual_ids = map (text_of_key "residual_id" "") blockers;
      candidate_only = elem status diagnostic_only_statuses || str_eq status "provisional";
      coordinates = c;
      execution_available = execution_available_of packet;
      liquidity = liquidity_lower_bound c;
      positive_contribution = contributes status blockers (authority_valid_of packet) c;
      reasons = eligibility_reasons status blockers (authority_valid_of packet) c;
      residuals_preserved = contains "residuals" packet;
      status = status;
    })
