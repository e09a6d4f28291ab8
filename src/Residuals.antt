-- ===== src/Residuals.antt =====
-- residuals/model.py: ledger entries and their embedded form.
pub mod Building
pub mod Store
pub mod Lifecycle
use collective_capability_ru.Prelude.{String, Bool, false, List, [], ◌∷◌, elem, if◌then◌else◌}
use collective_capability_ru.Prelude.Sorted.{sort_texts}
use collective_capability_ru.Json.{Dict, null, bool, str, arr, obj, end, dict, strings}
use collective_capability_ru.Json.Fields.{get}
use collective_capability_ru.Json.Python.{get_default, truthy}
use collective_capability_ru.Env.{Env, to_text}
use collective_capability_ru.Exec.{Exec, pure, now_iso, ◌>>=◌}
use collective_capability_ru.Ids.{stable_id}

abbrev pub packet_residual_kinds : List String
packet_residual_kinds =
    "missing_evidence" ∷ "unverified_claim" ∷ "scope_gap" ∷ "authority_gap" ∷ "hazard"
    ∷ "identity_gap" ∷ "stale_source" ∷ "dependency_gap" ∷ "queue_overload" ∷ "negative_liquidity"
    ∷ "settlement_blocker" ∷ "other" ∷ []

-- The keyword arguments of `build_residual`.
pub record ResidualSpec : Type 0 where
  pub kind : String
  pub description : String
  pub blocking : Bool
  pub object_type : String
  pub object_id : String
  pub severity : String
  pub refs : List String
  pub source : String
  pub repair_hint : String
  pub extensions : Dict

-- The defaults of the arguments that most callers leave out.
abbrev pub residual_spec :
    String → String → Bool → String → String → List String → String → ResidualSpec
residual_spec kind description blocking object_type object_id refs source = record {
  kind = kind;
  description = description;
  blocking = blocking;
  object_type = object_type;
  object_id = object_id;
  severity = "medium";
  refs = refs;
  source = source;
  repair_hint = "";
  extensions = end;
}

module _ ⦃env : Env⦄ where
  -- The identifier that `build_residual` derives: the severity and the hint are no part of it.
  unfoldable pub residual_id_of : ResidualSpec → String
  unfolding stable_id
  residual_id_of r = stable_id "residual" (
      str r.kind
      ∷ str r.description
      ∷ bool r.blocking
      ∷ str r.object_type
      ∷ str r.object_id
      ∷ arr (strings r.refs)
      ∷ str r.source
      ∷ [])

  -- `build_residual`
  unfoldable pub build_residual : ResidualSpec → Exec Dict
  unfolding residual_id_of sort_texts now_iso
  build_residual r = do
    at ← now_iso
    pure (
        dict (
          ("blocking", bool r.blocking)
          ∷ ("created_at", str at)
          ∷ ("description", str r.description)
          ∷ ("extensions", obj r.extensions)
          ∷ ("kind", str r.kind)
          ∷ ("object_id", str r.object_id)
          ∷ ("object_type", str r.object_type)
          ∷ ("refs", arr (strings (sort_texts r.refs)))
          ∷ ("repair_hint", str r.repair_hint)
          ∷ ("residual_id", str (residual_id_of r))
          ∷ ("schema_version", str "ccr.residual.v0.1")
          ∷ ("severity", str r.severity)
          ∷ ("source", str r.source)
          ∷ ("status", str "open")
          ∷ []))

  abbrev known_kind : String → String
  known_kind kind = if elem kind packet_residual_kinds then kind else "other"

  -- `to_packet_residual`
  unfoldable pub to_packet_residual : Dict → Dict
  to_packet_residual r = dict (
      ("blocking", bool (truthy (get_default (get "blocking" r) (bool false))))
      ∷ ("description", str (to_text (get_default (get "description" r) (str ""))))
      ∷ ("kind", str (known_kind (to_text (get_default (get "kind" r) (str "other")))))
      ∷ ("repair_hint", str (to_text (get_default (get "repair_hint" r) (str ""))))
      ∷ ("residual_id", str (to_text (get_default (get "residual_id" r) null)))
      ∷ ("severity", str (to_text (get_default (get "severity" r) (str "medium"))))
      ∷ [])
