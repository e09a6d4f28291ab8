-- ===== src/Phase/Accepting.antt =====
-- When an observation is accepted.
use collective_capability_ru.Prelude.{
  String, ◌≡◌, ◌↔◌, refl, Bool, true, false, List, [], ◌∷◌, ◌++◌, sym, subst, ◌∙◌,
}
use collective_capability_ru.Result.{ok, bind_ok, ok_inj}
use collective_capability_ru.Json.{Dict}
use collective_capability_ru.Env.{Env}
use collective_capability_ru.Floats.{Floats}
use collective_capability_ru.Packets.Gates.{is_clean}
use collective_capability_ru.Phase.Threshold.{
  Test, tests, Components, failed_of, compared, passes_test, test_all, threshold_distance, Status,
  not_executed, non_claims_preserved, components_of, evaluate_threshold,
}
use collective_capability_ru.Phase.Distance.{IsSubtraction, AllPass, threshold_distance_nonnegative}

failed_of-two :
    (j k : String) (a b : Bool)
    → (failed_of ((j, a) ∷ (k, b) ∷ []) ≡ []) ↔ ((a ≡ true) × (b ≡ true))
unfolding failed_of
failed_of-two j k true true = (λ h. (refl, refl), λ e. refl)
failed_of-two j k true false = (λ h. cc, λ (e, f). cc)
failed_of-two j k false b = (λ h. cc, λ (e, f). cc)

module _ ⦃floats : Floats⦄ where
  cons-AllPass :
      (observation threshold : Dict) (t : Test) (ts : List Test) (passed : Bool)
      (components rest : Components)
      → passes_test observation threshold t ≡ ok passed
      → (failed_of (components ++ rest) ≡ [])
        ↔ (AllPass observation threshold ts × (failed_of rest ≡ []))
      → (failed_of ((t.component, passed) ∷ (components ++ rest)) ≡ [])
        ↔ (AllPass observation threshold (t ∷ ts) × (failed_of rest ≡ []))
  unfolding failed_of
  cons-AllPass observation threshold t ts true components rest e (there, back) =
      (λ f. let (a, r) = there f in ((e, a), r), λ ((_, a), r). back (a, r))
  cons-AllPass observation threshold t ts false components rest e (there, back) =
      (λ f. cc, λ ((p, a), r). cc (ok_inj (sym e ∙ p)))

  test_all-AllPass :
      (observation threshold : Dict) (ts : List Test) (components rest : Components)
      → test_all observation threshold ts ≡ ok components
      → (failed_of (components ++ rest) ≡ [])
        ↔ (AllPass observation threshold ts × (failed_of rest ≡ []))
  unfolding test_all failed_of
  test_all-AllPass observation threshold [] components rest h =
      subst (λ c. (failed_of (c ++ rest) ≡ []) ↔ (Unit {0} × (failed_of rest ≡ []))) (ok_inj h)
        (λ e. (tt, e), λ (_, e). e)
  test_all-AllPass observation threshold (t ∷ ts) components rest h =
      let (passed, e_1, h_1) = bind_ok (passes_test observation threshold t) _ h in
      let (cs, e_2, h_2) = bind_ok (test_all observation threshold ts) _ h_1 in
      subst
        (λ c.
          (failed_of (c ++ rest) ≡ [])
          ↔ (AllPass observation threshold (t ∷ ts) × (failed_of rest ≡ [])))
        (ok_inj h_2)
        (cons-AllPass observation threshold t ts passed cs rest e_1
          (test_all-AllPass observation threshold ts cs rest e_2))

module _ ⦃env : Env⦄ ⦃floats : Floats⦄ where
  components_of-AllPass :
      (observation threshold : Dict) (components : Components)
      → components_of observation threshold ≡ ok components
      → (failed_of components ≡ []) ↔ (
          AllPass observation threshold tests
          × (not_executed observation ≡ true)
          × (non_claims_preserved observation ≡ true))
  unfolding components_of
  components_of-AllPass observation threshold components h =
      let (compared, e_1, h_1) = bind_ok (test_all observation threshold tests) _ h in
      let (there, back) =
        test_all-AllPass observation threshold tests compared
          (("not_executed", not_executed observation)
            ∷ ("non_claims_preserved", non_claims_preserved observation)
            ∷ [])
          e_1 in
      subst
        (λ c. (failed_of c ≡ []) ↔ (
          AllPass observation threshold tests
          × (not_executed observation ≡ true)
          × (non_claims_preserved observation ≡ true)))
        (ok_inj h_1)
        (
          λ f.
              let (a, r) = there f in
              let (idle, modest) = (failed_of-two "not_executed" "non_claims_preserved" _ _).0 r in
              (a, idle, modest),
          λ (a, idle, modest).
              back (a, (failed_of-two "not_executed" "non_claims_preserved" _ _).1 (idle, modest)),
        )

  clean_none : (xs : List String) → (is_clean xs ≡ true) ↔ (xs ≡ [])
  unfolding is_clean
  clean_none [] = (λ h. refl, λ h. refl)
  clean_none (x ∷ xs) = (λ h. cc, λ h. cc)

  -- Where evaluate_threshold returns, it accepts exactly if each of the eight comparisons passes,
  -- nothing was executed and the observation claims no proof; and the distance of an accepted
  -- observation is not below zero. Floats are such that a difference has the sign of a comparison.
  pub evaluate_threshold_accepted_iff :
      (observation threshold : Dict) (status : Status)
      → IsSubtraction floats
      → evaluate_threshold observation threshold ≡ ok status
      → ((status.accepted ≡ true) ↔ (
          AllPass observation threshold tests
          × (not_executed observation ≡ true)
          × (non_claims_preserved observation ≡ true)))
        × (status.accepted ≡ true → floats.lt status.threshold_distance (floats.literal 0) ≡ false)
  unfolding evaluate_threshold
  evaluate_threshold_accepted_iff observation threshold status law h =
      let (components, e_1, h_1) = bind_ok (components_of observation threshold) _ h in
      let (d, e_2, h_2) = bind_ok (threshold_distance observation threshold components) _ h_1 in
      let (there, back) = components_of-AllPass observation threshold components e_1 in
      let (unclean, reclean) = clean_none (failed_of components) in
      subst
        (λ s.
          ((s.accepted ≡ true) ↔ (
            AllPass observation threshold tests
            × (not_executed observation ≡ true)
            × (non_claims_preserved observation ≡ true)))
          × (s.accepted ≡ true → floats.lt s.threshold_distance (floats.literal 0) ≡ false))
        (ok_inj h_2)
        (
          (λ a. there (unclean a), λ p. reclean (back p)),
          λ a.
              let (all, _, _) = there (unclean a) in
              let (p_1, (p_2, (p_3, (_, (p_5, (p_6, (_, (p_8, _)))))))) = all in
              threshold_distance_nonnegative observation threshold components d law
                (p_1, (p_2, (p_3, (p_8, (p_5, (p_6, tt)))))) (unclean a) e_2,
        )
