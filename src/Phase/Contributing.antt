-- ===== src/Phase/Contributing.antt =====
-- When a packet counts for a phase.
use collective_capability_ru.Prelude.{
  String, ◌≡◌, ◌↔◌, refl, Bool, true, false, not, ◌&&◌, ◌||◌, Option, none, some, List, [], elem,
  Bool-cases, arith, eq_iff, str_eq, inl, inr, sym, subst,
}
use collective_capability_ru.Result.{ok, bind_ok, ok_inj}
use collective_capability_ru.Json.{Dict}
use collective_capability_ru.Json.Fields.{get}
use collective_capability_ru.Json.Python.{as_dict}
use collective_capability_ru.Env.{Env}
use collective_capability_ru.Floats.{Floats, IsComparison}
use collective_capability_ru.Exec.{World}
use collective_capability_ru.Packets.Gates.{is_clean, unless}
use collective_capability_ru.Phase.Eligibility.{
  contributing_statuses, effective_graph_statuses, diagnostic_only_statuses, when, Coordinates,
  coordinates_known, liquidity_lower_bound, is_nonnegative, is_negative, missing, contributes,
  eligibility_reasons, packet_eligibility, Eligibility, blockers_of, coordinates_of,
  authority_valid_of, text_of_key,
}

unless_none :
    (test : Bool) (reason : String) (later : List String)
    → (unless test reason later ≡ []) ↔ ((test ≡ true) × (later ≡ []))
unless_none true reason later = (λ h. (refl, h), λ (t, h). h)
unless_none false reason later = (λ h. cc, λ (t, h). cc)

when_none :
    (test : Bool) (reason : String) (later : List String)
    → (when test reason later ≡ []) ↔ ((test ≡ false) × (later ≡ []))
when_none true reason later = (λ h. cc, λ (t, h). cc)
when_none false reason later = (λ h. (refl, h), λ (t, h). h)

-- A status counts if it enters the graph and is not provisional.
elem-contributing :
    (status : String)
    → elem status contributing_statuses
      ≡ (elem status effective_graph_statuses && not (str_eq status "provisional"))
elem-contributing status = elim (Bool-cases (str_eq status "provisional")) [
  | inl same ↦
      subst
        (λ s.
          elem s contributing_statuses
          ≡ (elem s effective_graph_statuses && not (str_eq s "provisional")))
        (sym ((eq_iff status "provisional").0 same)) refl
  | inr other ↦ ground arith
]

firm_status :
    (status : String)
    → elem status contributing_statuses ≡ true
    → (elem status effective_graph_statuses ≡ true)
      × ((elem status diagnostic_only_statuses || str_eq status "provisional") ≡ false)
firm_status status h = elim (Bool-cases (str_eq status "checked")) [
  | inl same ↦ firm_at "checked" same (refl, refl)
  | inr other ↦ firm_at "settled" (ground arith) (refl, refl)
]
  where
    firm_at :
        (s : String)
        → str_eq status s ≡ true
        → (elem s effective_graph_statuses ≡ true)
          × ((elem s diagnostic_only_statuses || str_eq s "provisional") ≡ false)
        → (elem status effective_graph_statuses ≡ true)
          × ((elem status diagnostic_only_statuses || str_eq status "provisional") ≡ false)
    firm_at s same =
        subst
          (λ s.
            (elem s effective_graph_statuses ≡ true)
            × ((elem s diagnostic_only_statuses || str_eq s "provisional") ≡ false))
          (sym ((eq_iff status s).0 same))

module _ ⦃env : Env⦄ ⦃floats : Floats⦄ where
  missing_none :
      (c : Coordinates) (later : List String)
      → (missing c later ≡ []) ↔ ((coordinates_known c ≡ true) × (later ≡ []))
  unfolding missing
  missing_none c later = (λ h. (ground arith, ground arith), λ (k, l). ground arith)

  reasons_none :
      (status : String) (blockers : List Dict) (authority : Bool) (c : Coordinates)
      → (eligibility_reasons status blockers authority c ≡ []) ↔ (
          (elem status contributing_statuses ≡ true)
          × (is_clean blockers ≡ true)
          × (authority ≡ true)
          × (coordinates_known c ≡ true)
          × (is_negative (liquidity_lower_bound c) ≡ false))
  unfolding eligibility_reasons
  reasons_none status blockers authority c = (
    λ h.
        let (graph, h_1) =
          (unless_none (elem status effective_graph_statuses)
              "packet status is diagnostic-only for phase formation" _).0
            h in
        let (firm, h_2) =
          (when_none (str_eq status "provisional")
              "provisional packets enter graph but do not settle phase coordinates" _).0
            h_1 in
        let (clean, h_3) =
          (unless_none (is_clean blockers) "blocking residuals prevent positive phase contribution"
              _).0
            h_2 in
        let (valid, h_4) =
          (unless_none authority "authority or side-effect policy is outside the phase envelope"
              _).0
            h_3 in
        let (all_known, h_5) = (missing_none c _).0 h_4 in
        let (enough, h_6) =
          (when_none (is_negative (liquidity_lower_bound c))
              "liquidity lower bound is negative after residual and hazard charges" []).0
            h_5 in
        (ground (arith, elem-contributing status), clean, valid, all_known, enough),
    λ (counts, clean, valid, all_known, enough).
        (unless_none (elem status effective_graph_statuses)
            "packet status is diagnostic-only for phase formation" _).1
          (
            ground (arith, elem-contributing status),
            (when_none (str_eq status "provisional")
                  "provisional packets enter graph but do not settle phase coordinates" _).1
                (
                  ground (arith, elem-contributing status),
                  (unless_none (is_clean blockers)
                        "blocking residuals prevent positive phase contribution" _).1
                      (
                        clean,
                        (unless_none authority
                              "authority or side-effect policy is outside the phase envelope" _).1
                            (
                              valid,
                              (missing_none c _).1 (
                                all_known,
                                (when_none (is_negative (liquidity_lower_bound c))
                                      "liquidity lower bound is negative after residual and hazard charges"
                                      []).1
                                    (enough, refl),
                              ),
                            ),
                      ),
                ),
          ),
  )

  nonnegative_enough :
      (x : Option floats.Number)
      → IsComparison floats
      → is_nonnegative x ≡ true
      → is_negative x ≡ false
  nonnegative_enough none order h = cc
  nonnegative_enough (some x) order h =
      ground (arith, order.asym (floats.literal 0) x, order.apart x (floats.literal 0))

  contributes_iff :
      (status : String) (blockers : List Dict) (authority : Bool) (c : Coordinates)
      → IsComparison floats
      → (contributes status blockers authority c ≡ true) ↔ (
          (eligibility_reasons status blockers authority c ≡ [])
          × (is_nonnegative (liquidity_lower_bound c) ≡ true))
  unfolding contributes
  contributes_iff status blockers authority c order = (
    λ p. (
      (reasons_none status blockers authority c).1 (
        ground arith,
        ground arith,
        ground arith,
        ground arith,
        nonnegative_enough (liquidity_lower_bound c) order (ground arith),
      ),
      ground arith,
    ),
    λ (none_given, enough).
        let (counts, clean, valid, all_known, _) =
          (reasons_none status blockers authority c).0 none_given in
        ground arith,
  )

  contributing_firm :
      (status : String) (blockers : List Dict) (authority : Bool) (c : Coordinates)
      → contributes status blockers authority c ≡ true
      → (elem status effective_graph_statuses ≡ true)
        × ((elem status diagnostic_only_statuses || str_eq status "provisional") ≡ false)
  unfolding contributes
  contributing_firm status blockers authority c p = firm_status status (ground arith)

  -- Where a packet's eligibility is told: the packet contributes positively exactly if no reason is
  -- given against it and its liquidity bound is at least zero, as it is not where it is not a
  -- number; and a packet that contributes is admissible and more than a candidate. The order of the
  -- floats is such that none is both below and at least another.
  pub packet_eligibility_positive_iff :
      (packet : Dict) (snapshot : Option (List Dict)) (w : World) (e : Eligibility)
      → IsComparison floats
      → packet_eligibility packet snapshot w ≡ ok e
      → ((e.positive_contribution ≡ true)
          ↔ ((e.reasons ≡ []) × (is_nonnegative e.liquidity ≡ true)))
        × (e.positive_contribution ≡ true
            → (e.accepted_or_certificate_admissible ≡ true) × (e.candidate_only ≡ false))
  unfolding packet_eligibility
  packet_eligibility_positive_iff packet snapshot w e order h =
      let (blockers, e_1, h_1) = bind_ok (blockers_of packet snapshot w) _ h in
      let (c, e_2, h_2) = bind_ok (coordinates_of (as_dict (get "metrics" packet))) _ h_1 in
      subst
        (λ e.
          ((e.positive_contribution ≡ true)
            ↔ ((e.reasons ≡ []) × (is_nonnegative e.liquidity ≡ true)))
          × (e.positive_contribution ≡ true
              → (e.accepted_or_certificate_admissible ≡ true) × (e.candidate_only ≡ false)))
        (ok_inj h_2)
        (
          contributes_iff (text_of_key "status" "candidate" packet) blockers
              (authority_valid_of packet) c order,
          contributing_firm (text_of_key "status" "candidate" packet) blockers
              (authority_valid_of packet) c,
        )
