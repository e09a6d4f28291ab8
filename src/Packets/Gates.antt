-- ===== src/Packets/Gates.antt =====
-- The gates of packets/promotion.py: what a packet must show before it is checked or settled.
use collective_capability_ru.Prelude.{
  String, Bool, true, false, not, ◌&&◌, ◌||◌, Option, some, List, [], ◌∷◌, any, if◌then◌else◌, ◌++◌,
}
use collective_capability_ru.Prelude.Text.{codes, codes_eq, lower_codes, ◌<>◌}
use collective_capability_ru.Result.{Result, ok, ◌>>=◌}
use collective_capability_ru.Json.{Json, Dict, bool, str, arr, obj, nil, end}
use collective_capability_ru.Json.Fields.{get, contains}
use collective_capability_ru.Json.Python.{get_default, truthy, is_str, is_true, as_dict}
use collective_capability_ru.Json.Equality.{opt_eq, iterate, object_of}
use collective_capability_ru.Env.{Env, to_text}
use collective_capability_ru.Exec.{World}
use collective_capability_ru.Residuals.Store.{linked_open_blocking_residuals}
use collective_capability_ru.Packets.{str_eq, can_attempt_promotion, packet_id_of}

-- `packet.get(key, {})`, which is asked for more.
object_at : String → Dict → Result Dict
unfolding object_of
object_at key packet = object_of (get_default (get key packet) (obj end))

-- `packet.get(key, [])`, which is iterated over.
list_at : String → Dict → Result (List Json)
unfolding iterate
list_at key packet = iterate (get_default (get key packet) (arr nil))

abbrev pub is_truthy : Option Json → Bool
is_truthy v = truthy (get_default v (bool false))

-- `[item for item in items if item.get("required")]`
unfoldable pub required_of : List Json → Result (List Dict)
required_of [] = ok []
required_of (x ∷ xs) = object_of x >>= λ d.
    required_of xs >>= λ ds. ok (if is_truthy (get "required" d) then d ∷ ds else ds)

-- A report that has accepted what the verifier was asked for.
unfoldable pub accepts : Dict → Dict → Bool
accepts verifier report =
    is_truthy (get "accepted" report)
    && (opt_eq (get "provider" report) (get "provider" verifier)
        || opt_eq (get "report_id" report) (get "verifier_id" verifier))

-- The inner loop: the first report that fits ends it.
unfoldable pub some_accepts : Dict → List Json → Result Bool
some_accepts verifier [] = ok false
some_accepts verifier (x ∷ xs) = object_of x >>= λ report. elim (accepts verifier report) [
  | true ↦ ok true
  | false ↦ some_accepts verifier xs
]

unfoldable pub any_verifier : List Dict → Json → Result Bool
any_verifier [] reports = ok false
any_verifier (v ∷ vs) reports = iterate reports >>= λ xs.
    some_accepts v xs >>= λ b. elim b [ true ↦ ok true | false ↦ any_verifier vs reports ]

-- `_required_verifier_accepts`
unfoldable pub required_verifier_accepts : Dict → Result Bool
unfolding list_at
required_verifier_accepts packet = list_at "verifiers" packet >>= λ items.
    required_of items >>= λ required.
    any_verifier required (get_default (get "verifier_reports" packet) (arr nil))

harmless_policies : List String
harmless_policies = "none" ∷ "dry_run_only" ∷ "not_applicable" ∷ []

module _ ⦃env : Env⦄ where
  harmless : Option Json → Bool
  unfolding harmless_policies
  harmless (some (obj d)) =
      any
        (λ p.
          codes_eq (codes p)
            (lower_codes (to_text (get_default (get "side_effect_policy" d) (str "none")))))
        harmless_policies
  harmless _ = true

  -- `_no_authority_bypass`
  unfoldable pub no_authority_bypass : Dict → Result Bool
  unfolding object_at harmless
  no_authority_bypass packet = object_at "risk" packet >>= λ risk. ok (
      not (is_str (get "authority_level" risk) "external_side_effect")
      && harmless (get "execution_availability" packet))

-- `_scope_declared`
unfoldable pub scope_declared : Dict → Result Bool
unfolding object_at
scope_declared packet = object_at "scope" packet >>= λ scope.
    ok (is_truthy (get "validity_domain" scope) && is_truthy (get "profiles" scope))

-- `_settlement_meta`
abbrev pub settlement_meta : Dict → Dict
settlement_meta packet = as_dict (get "settlement" (as_dict (get "extensions" packet)))

-- `_settlement_target_satisfied`, `_lineage_closed`, `_integration_policy_passed`
abbrev pub meta_flag : String → Dict → Bool
meta_flag key packet = is_true (get key (settlement_meta packet))

-- `_risk_in_envelope`
unfoldable pub risk_in_envelope : Dict → Result Bool
unfolding object_at
risk_in_envelope packet = object_at "risk" packet >>= λ risk. ok (
    not (is_str (get "authority_level" risk) "external_side_effect")
    && not (is_str (get "hazard_level" risk) "critical")
    && not (is_str (get "misuse_risk" risk) "critical")
    && not (is_str (get "overclaim_risk" risk) "critical"))

unfoldable pub embedded_blockers : List Json → List Dict
embedded_blockers [] = []
embedded_blockers (obj d ∷ xs) =
    if is_truthy (get "blocking" d) then d ∷ embedded_blockers xs else embedded_blockers xs
embedded_blockers (_ ∷ xs) = embedded_blockers xs

module _ ⦃env : Env⦄ where
  -- `_blocking_residuals`
  unfoldable pub blocking_residuals : Dict → World → Result (List Dict)
  unfolding list_at embedded_blockers
  blocking_residuals packet w = list_at "residuals" packet >>= λ embedded.
      packet_id_of packet >>= λ id.
      ok (embedded_blockers embedded ++ linked_open_blocking_residuals id w)

-- `if not test: reasons.append(reason)`
abbrev pub unless : Bool → String → List String → List String
unless true reason later = later
unless false reason later = reason ∷ later

unfoldable pub is_clean : {A : Type 0} → List A → Bool
is_clean [] = true
is_clean (_ ∷ _) = false

module _ ⦃env : Env⦄ where
  -- The branch of `evaluate_promotion` for the target "checked".
  unfoldable pub checked_reasons : Dict → Result (List String)
  checked_reasons packet = required_verifier_accepts packet >>= λ verified.
      no_authority_bypass packet >>= λ safe. ok (
        unless (is_clean (env.schema_errors "packet" (obj packet))) "packet schema is invalid" (
          unless verified "no required verifier has accepted the packet" (
            unless (contains "residuals" packet) "residual ledger is missing"
              (unless safe "authority bypass or side-effectful execution request is present" []))))

  -- The branch for the target "settled".
  unfoldable pub settled_reasons : Dict → World → Result (List String)
  settled_reasons packet w = blocking_residuals packet w >>= λ blockers.
      scope_declared packet >>= λ scoped. risk_in_envelope packet >>= λ safe. ok (
        unless (is_clean (env.schema_errors "packet" (obj packet))) "packet schema is invalid" (
          unless (is_clean blockers) "blocking residuals prevent settlement" (
            unless (meta_flag "target_satisfied" packet) "settlement target is not satisfied" (
              unless (meta_flag "lineage_closed" packet) "lineage is not closed" (
                unless scoped "scope is not declared" (
                  unless safe "risk is outside the declared envelope" (
                    unless (meta_flag "integration_policy_passed" packet)
                      "integration policy has not passed" [])))))))

  unfoldable pub gate_reasons : String → Dict → World → Result (List String)
  unfolding checked_reasons settled_reasons
  gate_reasons target packet w =
      if str_eq target "checked"
      then checked_reasons packet
      else if str_eq target "settled"
      then settled_reasons packet w
      else ok []

  -- `str(packet.get("status", "candidate"))`
  abbrev pub declared_status : Dict → String
  declared_status packet = to_text (get_default (get "status" packet) (str "candidate"))

  -- The reasons that `evaluate_promotion` gathers.
  unfoldable pub promotion_reasons : String → Dict → World → Result (List String)
  unfolding gate_reasons
  promotion_reasons target packet w =
      can_attempt_promotion (declared_status packet) target >>= λ meaningful.
      gate_reasons target packet w >>= λ reasons. ok (
        unless meaningful
          ("invalid status transition " <> (declared_status packet <> ("->" <> target))) reasons)
