-- ===== src/Packets/Exact.antt =====
-- When a packet passes the gates of packets/promotion.py.
use collective_capability_ru.Prelude.{
  String, ◌≡◌, ◌↔◌, refl, ap, ◌∙◌, Bool, true, false, ◌&&◌, some, List, [], ◌∷◌, any, arith, eq_iff,
  if◌then◌else◌,
}
use collective_capability_ru.Result.{ok, ok_inj, bind_ok}
use collective_capability_ru.Json.{Items, Dict, arr, obj, nil, cons, elements}
use collective_capability_ru.Json.Fields.{get, contains}
use collective_capability_ru.Json.Equality.{iterate, object_of}
use collective_capability_ru.Env.{Env}
use collective_capability_ru.Exec.{World}
use collective_capability_ru.Packets.{is_meaningful, can_attempt_promotion, require_packet_status}
use collective_capability_ru.Packets.Gates.{
  gate_reasons, is_truthy, required_of, accepts, some_accepts, any_verifier,
  required_verifier_accepts, no_authority_bypass, scope_declared, risk_in_envelope, meta_flag,
  blocking_residuals, unless, is_clean, checked_reasons, settled_reasons, declared_status,
  promotion_reasons,
}

abbrev pub objects : List Dict → Items
objects [] = nil
objects (d ∷ ds) = cons (obj d) (objects ds)

abbrev pub needs_report : Dict → Bool
needs_report verifier = is_truthy (get "required" verifier)

-- The required verifiers of a list.
abbrev required_in : List Dict → List Dict
required_in [] = []
required_in (v ∷ vs) = if needs_report v then v ∷ required_in vs else required_in vs

required_of-objects : (vs : List Dict) → required_of (elements (objects vs)) ≡ ok (required_in vs)
unfolding required_of object_of
required_of-objects [] = refl
required_of-objects (v ∷ vs) = rw (required_of-objects vs) refl

some_accepts-objects :
    (v : Dict) (rs : List Dict) → some_accepts v (elements (objects rs)) ≡ ok (any (accepts v) rs)
unfolding some_accepts object_of
some_accepts-objects v [] = refl
some_accepts-objects v (r ∷ rs) = ground (arith, some_accepts-objects v rs)

any_verifier-objects :
    (vs rs : List Dict)
    → any_verifier (required_in vs) (arr (objects rs))
      ≡ ok (any (λ v. needs_report v && any (accepts v) rs) vs)
unfolding any_verifier iterate
any_verifier-objects [] rs = refl
any_verifier-objects (v ∷ vs) rs =
    ground (arith, some_accepts-objects v rs, any_verifier-objects vs rs)

-- For a packet whose verifiers and reports are lists of objects, `_required_verifier_accepts` says
-- whether some required verifier has an accepted report that bears its provider or its identifier.
pub required_verifier_accepts_lem :
    (packet : Dict) (vs rs : List Dict)
    → get "verifiers" packet ≡ some (arr (objects vs))
    → get "verifier_reports" packet ≡ some (arr (objects rs))
    → required_verifier_accepts packet ≡ ok (any (λ v. needs_report v && any (accepts v) rs) vs)
unfolding required_verifier_accepts iterate
required_verifier_accepts_lem packet vs rs h k =
    rw (h, k, required_of-objects vs, any_verifier-objects vs rs) refl

unless_passed :
    (b : Bool) (r : String) (later : List String)
    → unless b r later ≡ []
    → (b ≡ true) × (later ≡ [])
unless_passed true r later h = (refl, h)
unless_passed false r later h = cc

clean_nil : {A : Type 0} (l : List A) → is_clean l ≡ true → l ≡ []
unfolding is_clean
clean_nil [] h = refl
clean_nil (x ∷ l) h = cc

meaningful_from :
    (before target : String)
    → can_attempt_promotion before target ≡ ok true
    → is_meaningful before target ≡ true
unfolding can_attempt_promotion
meaningful_from before target h =
    let (_, _, later) = bind_ok (require_packet_status before) _ h in
    let (_, _, e) = bind_ok (require_packet_status target) _ later in ok_inj e

module _ ⦃env : Env⦄ where
  -- What a packet must show before it is checked.
  pub record CheckedGates (packet : Dict) : Type 0 where
    pub candidate : declared_status packet ≡ "candidate"
    pub valid : is_clean (env.schema_errors "packet" (obj packet)) ≡ true
    pub verified : required_verifier_accepts packet ≡ ok true
    pub ledger : contains "residuals" packet ≡ true
    pub safe : no_authority_bypass packet ≡ ok true

  -- What a packet must show before it is settled, with the residuals that are open in the ledger.
  pub record SettledGates (packet : Dict) (w : World) : Type 0 where
    pub checked : declared_status packet ≡ "checked"
    pub valid : is_clean (env.schema_errors "packet" (obj packet)) ≡ true
    pub unblocked : blocking_residuals packet w ≡ ok []
    pub satisfied : meta_flag "target_satisfied" packet ≡ true
    pub closed : meta_flag "lineage_closed" packet ≡ true
    pub scoped : scope_declared packet ≡ ok true
    pub safe : risk_in_envelope packet ≡ ok true
    pub integrated : meta_flag "integration_policy_passed" packet ≡ true

  transition_passed :
      (target : String) (packet : Dict) (w : World)
      → promotion_reasons target packet w ≡ ok []
      → (is_meaningful (declared_status packet) target ≡ true)
        × (gate_reasons target packet w ≡ ok [])
  unfolding promotion_reasons
  transition_passed target packet w h =
      let (meaningful, e, h_1) = bind_ok _ _ h in
      let (reasons, f, h_2) = bind_ok _ _ h_1 in
      let (m, none_left) = unless_passed _ _ _ (ok_inj h_2) in
      (meaningful_from _ _ (e ∙ ap ok m), f ∙ ap ok none_left)

  checked_passed :
      (packet : Dict) (w : World)
      → promotion_reasons "checked" packet w ≡ ok []
      → CheckedGates packet
  unfolding gate_reasons checked_reasons
  checked_passed packet w h =
      let (m, g) = transition_passed "checked" packet w h in
      let (verified, e, g_1) = bind_ok (required_verifier_accepts packet) _ g in
      let (safe, f, g_2) = bind_ok (no_authority_bypass packet) _ g_1 in
      let (valid, r_1) = unless_passed _ _ _ (ok_inj g_2) in
      let (v, r_2) = unless_passed _ _ _ r_1 in
      let (ledger, r_3) = unless_passed _ _ _ r_2 in
      let (s, _) = unless_passed _ _ _ r_3 in
      record {
        candidate = (eq_iff (declared_status packet) "candidate").0 m;
        valid = valid;
        verified = e ∙ ap ok v;
        ledger = ledger;
        safe = f ∙ ap ok s;
      }

  checked_shown :
      (packet : Dict) (w : World)
      → CheckedGates packet
      → promotion_reasons "checked" packet w ≡ ok []
  unfolding promotion_reasons gate_reasons checked_reasons can_attempt_promotion
      require_packet_status
  checked_shown packet w g = rw (g.candidate, g.verified, g.safe, g.valid, g.ledger) refl

  -- `evaluate_promotion` has no reason against the target "checked" exactly for a candidate that is
  -- valid, verified and safe, and has a residual ledger.
  pub checked_iff :
      (packet : Dict) (w : World)
      → (promotion_reasons "checked" packet w ≡ ok []) ↔ CheckedGates packet
  checked_iff packet w = (checked_passed packet w, checked_shown packet w)

  settled_passed :
      (packet : Dict) (w : World)
      → promotion_reasons "settled" packet w ≡ ok []
      → SettledGates packet w
  unfolding gate_reasons settled_reasons
  settled_passed packet w h =
      let (m, g) = transition_passed "settled" packet w h in
      let (blockers, e, g_1) = bind_ok (blocking_residuals packet w) _ g in
      let (scoped, f, g_2) = bind_ok (scope_declared packet) _ g_1 in
      let (safe, k, g_3) = bind_ok (risk_in_envelope packet) _ g_2 in
      let (valid, r_1) = unless_passed _ _ _ (ok_inj g_3) in
      let (clean, r_2) = unless_passed _ _ _ r_1 in
      let (satisfied, r_3) = unless_passed _ _ _ r_2 in
      let (closed, r_4) = unless_passed _ _ _ r_3 in
      let (s, r_5) = unless_passed _ _ _ r_4 in
      let (r, r_6) = unless_passed _ _ _ r_5 in
      let (integrated, _) = unless_passed _ _ _ r_6 in
      record {
        checked = (eq_iff (declared_status packet) "checked").0 m;
        valid = valid;
        unblocked = e ∙ ap ok (clean_nil blockers clean);
        satisfied = satisfied;
        closed = closed;
        scoped = f ∙ ap ok s;
        safe = k ∙ ap ok r;
        integrated = integrated;
      }

  settled_shown :
      (packet : Dict) (w : World)
      → SettledGates packet w
      → promotion_reasons "settled" packet w ≡ ok []
  unfolding promotion_reasons gate_reasons settled_reasons can_attempt_promotion
      require_packet_status is_clean
  settled_shown packet w g =
      rw (g.checked, g.unblocked, g.scoped, g.safe, g.valid, g.satisfied, g.closed, g.integrated)
        refl

  -- `evaluate_promotion` has no reason against the target "settled" exactly for a checked packet
  -- that passes every gate of settlement; no residual that blocks it may be embedded or open.
  pub settled_iff :
      (packet : Dict) (w : World)
      → (promotion_reasons "settled" packet w ≡ ok []) ↔ SettledGates packet w
  settled_iff packet w = (settled_passed packet w, settled_shown packet w)
