-- ===== src/Phase/Distance.antt =====
-- How far from its threshold an observation is, all of whose comparisons pass.
use collective_capability_ru.Prelude.{
  String, ◌≡◌, ◌≢◌, refl, Bool, true, false, Option, none, some, List, [], ◌∷◌, ◌++◌, arith,
  if◌then◌else◌, ap, sym, subst, ◌∙◌,
}
use collective_capability_ru.Result.{ok, ◌>>=◌, bind_ok, ok_inj}
use collective_capability_ru.Json.{Json, Dict}
use collective_capability_ru.Floats.{Floats, at_least, least}
use collective_capability_ru.Phase.Threshold.{
  Test, pairs, Components, failed_of, passed_at, within, compared, measured, passes_test, minus_one,
  signed_gap, gap_of, gaps_of, least_from, least_of, threshold_distance,
}

-- What the code relies on in differences: that of a number and one that it is at least is not below
-- zero, and the other way round after a change of sign.
pub record IsSubtraction (floats : Floats) : Type 0 where
  pub upwards :
      (x y : floats.Number)
      → at_least ⦃floats = floats⦄ x y ≡ true
      → floats.lt (floats.mul (floats.literal 1) (floats.sub x y)) (floats.literal 0) ≡ false
  pub downwards :
      (x y : floats.Number)
      → at_least ⦃floats = floats⦄ y x ≡ true
      → floats.lt
          (floats.mul (floats.negate (floats.literal 1)) (floats.sub x y))
          (floats.literal 0)
        ≡ false

passed_any :
    (components : Components) (key : String)
    → failed_of components ≡ []
    → passed_at key components ≡ true
unfolding failed_of passed_at
passed_any [] key h = refl
passed_any ((k, true) ∷ components) key h = ground (arith, passed_any components key h)
passed_any ((k, false) ∷ components) key h = cc

module _ ⦃floats : Floats⦄ where
  -- The comparisons of a list all pass.
  abbrev pub AllPass : Dict → Dict → List Test → Type 0
  AllPass observation threshold [] = Unit {0}
  AllPass observation threshold (t ∷ ts) =
      (passes_test observation threshold t ≡ ok true) × AllPass observation threshold ts

  -- None of the numbers is below zero.
  abbrev NoneNegative : List floats.Number → Type 0
  NoneNegative [] = Unit {0}
  NoneNegative (x ∷ xs) = (floats.lt x (floats.literal 0) ≡ false) × NoneNegative xs

  least_from-NoneNegative :
      (x : floats.Number) (xs : List floats.Number)
      → floats.lt x (floats.literal 0) ≡ false
      → NoneNegative xs
      → floats.lt (least_from x xs) (floats.literal 0) ≡ false
  unfolding least_from
  least_from-NoneNegative x [] h _ = h
  least_from-NoneNegative x (y ∷ ys) h (k, rest) =
      least_from-NoneNegative (least x y) ys (ground arith) rest

  signed_gap_nonnegative :
      (up : Bool) (x y : floats.Number)
      → IsSubtraction floats
      → within up x y ≡ true
      → floats.lt (signed_gap up (floats.sub x y)) (floats.literal 0) ≡ false
  signed_gap_nonnegative true x y law h = law.upwards x y h
  signed_gap_nonnegative false x y law h = law.downwards x y h

  gap_nonnegative :
      (up : Bool) (values : Option (Json × Json)) (g : floats.Number)
      → IsSubtraction floats
      → compared up values ≡ ok true
      → gap_of up values ≡ ok g
      → floats.lt g (floats.literal 0) ≡ false
  gap_nonnegative up none g law passed h = cc
  gap_nonnegative up (some (observed, limit)) g law passed h =
      let (x, e_1, h_1) = bind_ok (floats.of_json observed) _ h in
      let (y, e_2, h_2) = bind_ok (floats.of_json limit) _ h_1 in
      subst (λ g. floats.lt g (floats.literal 0) ≡ false) (ok_inj h_2)
        (signed_gap_nonnegative up x y law (
          ok_inj (
            sym (
              ap (λ r. r >>= λ x. floats.of_json limit >>= λ y. ok (within up x y)) e_1
              ∙ ap (λ r. r >>= λ y. ok (within up x y)) e_2)
            ∙ passed)))

  gaps-NoneNegative :
      (observation threshold : Dict) (ts : List Test) (gaps : List floats.Number)
      → IsSubtraction floats
      → AllPass observation threshold ts
      → gaps_of observation threshold ts ≡ ok gaps
      → NoneNegative gaps
  unfolding gaps_of passes_test
  gaps-NoneNegative observation threshold [] gaps law a h = subst NoneNegative (ok_inj h) tt
  gaps-NoneNegative observation threshold (t ∷ ts) gaps law (p, a) h =
      let values = measured observation t.observed threshold t.limit in
      let (g, e_1, h_1) = bind_ok (gap_of t.upward values) _ h in
      let (gs, e_2, h_2) = bind_ok (gaps_of observation threshold ts) _ h_1 in
      subst NoneNegative (ok_inj h_2) (
        gap_nonnegative t.upward values g law p e_1,
        gaps-NoneNegative observation threshold ts gs law a e_2,
      )

  gaps_of_some :
      (observation threshold : Dict) (ts : List Test) (gaps : List floats.Number)
      → ts ≢ []
      → gaps_of observation threshold ts ≡ ok gaps
      → gaps ≢ []
  unfolding gaps_of
  gaps_of_some observation threshold [] gaps there h = absurd (there refl)
  gaps_of_some observation threshold (t ∷ ts) gaps there h =
      let (g, e_1, h_1) =
        bind_ok (gap_of t.upward (measured observation t.observed threshold t.limit)) _ h in
      let (gs, e_2, h_2) = bind_ok (gaps_of observation threshold ts) _ h_1 in
      subst (λ gaps. gaps ≢ []) (ok_inj h_2) (λ e. cc)

  least_of-NoneNegative :
      (xs : List floats.Number)
      → xs ≢ []
      → NoneNegative xs
      → floats.lt (least_of xs) (floats.literal 0) ≡ false
  least_of-NoneNegative [] some_gap n = absurd (some_gap refl)
  least_of-NoneNegative (x ∷ xs) some_gap (h, n) = least_from-NoneNegative x xs h n

  -- An observation whose distance is told, of accepted components, is not below its threshold.
  pub threshold_distance_nonnegative :
      (observation threshold : Dict) (components : Components) (d : floats.Number)
      → IsSubtraction floats
      → AllPass observation threshold pairs
      → failed_of components ≡ []
      → threshold_distance observation threshold components ≡ ok d
      → floats.lt d (floats.literal 0) ≡ false
  unfolding threshold_distance
  threshold_distance_nonnegative observation threshold components d law a f h =
      let (gaps, e_1, h_1) = bind_ok (gaps_of observation threshold pairs) _ h in
      let n = gaps-NoneNegative observation threshold pairs gaps law a e_1 in
      subst (λ d. floats.lt d (floats.literal 0) ≡ false) (ok_inj h_1)
        (subst
          (λ idle.
            floats.lt (least_of (if idle then gaps else gaps ++ (minus_one ∷ [])))
              (floats.literal 0)
            ≡ false)
          (sym (passed_any components "not_executed" f))
          (least_of-NoneNegative gaps (gaps_of_some observation threshold pairs gaps (λ e. cc) e_1)
            n))
