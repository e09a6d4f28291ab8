-- ===== src/Packets/Promotion.antt =====
-- packets/promotion.py: `evaluate_promotion` and `promote_packet`.
pub mod Outcome
use collective_capability_ru.Prelude.{
  String, Bool, true, false, ◌||◌, Option, none, some, List, [], ◌∷◌, elem, any, str_eq,
  if◌then◌else◌,
}
use collective_capability_ru.Prelude.Map.{FilePath}
use collective_capability_ru.Prelude.Text.{codes, has_part, ◌<>◌}
use collective_capability_ru.Result.{Result, ok, err, attribute_error, ◌>>=◌ as bind_result}
use collective_capability_ru.Json.{Json, Items, Dict, null, str, arr, obj, nil, cons}
use collective_capability_ru.Json.Fields.{get, set}
use collective_capability_ru.Json.Python.{get_default}
use collective_capability_ru.Json.Equality.{opt_eq, iterate, object_of}
use collective_capability_ru.Env.{Env, to_text}
use collective_capability_ru.Exec.{World, Exec, pure, lift, gets, now_iso, ◌>>=◌, ◌>>◌}
use collective_capability_ru.Blackboard.{EventSpec, make_event, append_event}
use collective_capability_ru.Residuals.{residual_spec, build_residual, to_packet_residual}
use collective_capability_ru.Residuals.Store.{save_residual}
use collective_capability_ru.Packets.{packet_id_of, load_packet, save_packet_at_status}
use collective_capability_ru.Packets.Gates.{is_clean, promotion_reasons}

-- What `evaluate_promotion` returns.
pub record Verdict : Type 0 where
  pub passed : Bool
  pub reasons : List String
  pub residuals : List Dict

-- `"; ".join(reasons)`
join : List String → String
join [] = ""
join (r ∷ []) = r
join (r ∷ s ∷ rs) = r <> ("; " <> join (s ∷ rs))

blocker_kind : String → List String → String
blocker_kind target reasons =
    if any (λ r. has_part (codes "authority") (codes r)) reasons
    then "authority_gap"
    else if str_eq target "settled"
    then "settlement_blocker"
    else "unverified_claim"

module _ ⦃env : Env⦄ where
  failure : String → String → List String → Exec Dict
  unfolding join blocker_kind
  failure id target reasons =
      build_residual
        (record (residual_spec (blocker_kind target reasons)
          ("Promotion to " <> (target <> (" failed: " <> join reasons))) true "packet" id (id ∷ [])
          "ccr.packet.promote") {
            repair_hint = "Satisfy the listed promotion gates and retry promotion.";
          })

  verdict_of : String → Dict → List String → Exec Verdict
  unfolding failure
  verdict_of target packet [] = pure (record { passed = true; reasons = []; residuals = [] })
  verdict_of target packet (r ∷ rs) = do
    id ← lift (packet_id_of packet)
    residual ← failure id target (r ∷ rs)
    pure (record { passed = false; reasons = r ∷ rs; residuals = residual ∷ [] })

  -- `evaluate_promotion`
  unfoldable pub evaluate_promotion : Dict → String → Exec Verdict
  unfolding verdict_of
  evaluate_promotion packet target = do
    gathered ← gets (promotion_reasons target packet)
    reasons ← lift gathered
    if elem target ("quarantined" ∷ "deprecated" ∷ [])
        then pure (record { passed = true; reasons = []; residuals = [] })
        else verdict_of target packet reasons

-- `any(item.get("residual_id") == id for item in residuals)`
embeds : Option Json → List Json → Result Bool
embeds id [] = ok false
embeds id (x ∷ xs) =
    bind_result (object_of x)
      (λ d. elim (opt_eq (get "residual_id" d) id) [ true ↦ ok true | false ↦ embeds id xs ])

append_item : Items → Json → Items
append_item nil v = cons v nil
append_item (cons x xs) v = cons x (append_item xs v)

-- `packet["residuals"].append(embedded)`, which only a list has.
append_residual : Json → Json → Result Json
unfolding append_item
append_residual (arr xs) v = ok (arr (append_item xs v))
append_residual _ v = err attribute_error

-- What `promote_packet` returns.
pub record PromotionReply : Type 0 where
  pub passed : Bool
  pub reasons : List String
  pub residuals : List String
  pub status_after : String
  pub status_before : String

event_of : String → String → String → String → String → List String → String → EventSpec
event_of action actor id before after residuals note = record {
  action = action;
  actor = actor;
  object_type = "packet";
  object_id = id;
  status_before = some before;
  status_after = some after;
  refs = [];
  residuals = residuals;
  dry_run = false;
  note = note;
}

append_unless : Bool → Json → Json → Dict → Result Dict
unfolding append_residual
append_unless true held v packet = ok (set "residuals" held packet)
append_unless false held v packet =
    bind_result (append_residual held v) (λ held'. ok (set "residuals" held' packet))

module _ ⦃env : Env⦄ where
  -- The embedding of a residual, unless the packet has one with its identifier.
  unfoldable pub embed_residual : Dict → Dict → Result Dict
  unfolding embeds append_unless
  embed_residual residual packet =
      let embedded = to_packet_residual residual in
      let held = get_default (get "residuals" packet) (arr nil) in
      bind_result (iterate held) (λ xs.
        bind_result (embeds (get "residual_id" embedded) xs)
          (λ already. append_unless already held (obj embedded) packet))

  save_all : List Dict → Dict → Exec (Dict × List String)
  save_all [] packet = pure (packet, [])
  save_all (r ∷ rs) packet = do
    _ ← save_residual r
    packet' ← lift (embed_residual r packet)
    (packet'', ids) ← save_all rs packet'
    pure (packet'', to_text (get_default (get "residual_id" r) null) ∷ ids)

  promoted : String → String → String → Dict → FilePath → String → List String → Exec PromotionReply
  unfolding event_of
  promoted id target actor packet old_path before ids = do
    at ← now_iso
    _ ← save_packet_at_status (set "updated_at" (str at) packet) target old_path
    event ← make_event (event_of "packet.promote" actor id before target ids "")
    append_event event
    pure (record {
      passed = true;
      reasons = [];
      residuals = ids;
      status_after = target;
      status_before = before;
    })

  refused :
      String → String → Dict → FilePath → String → List String → List String → Exec PromotionReply
  unfolding event_of join
  refused id actor packet old_path before ids reasons = do
    _ ← save_packet_at_status packet before old_path
    event ← make_event (event_of "packet.promote.failed" actor id before before ids (join reasons))
    append_event event
    pure (record {
      passed = false;
      reasons = reasons;
      residuals = ids;
      status_after = before;
      status_before = before;
    })

  -- `promote_packet`
  unfoldable pub promote_packet : String → String → String → Exec PromotionReply
  unfolding save_all promoted refused
  promote_packet id target actor = do
    (packet, old_path, before) ← load_packet id
    verdict ← evaluate_promotion packet target
    (packet', ids) ← save_all verdict.residuals packet
    if verdict.passed
        then promoted id target actor packet' old_path before ids
        else refused id actor packet' old_path before ids verdict.reasons
