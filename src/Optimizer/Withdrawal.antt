-- ===== src/Optimizer/Withdrawal.antt =====
-- Both loops of `replay` that carry invalidation on reach every asset that falls, and no other.
use collective_capability_ru.Prelude.{
  ℕ, zero, suc, ◌≤◌, ◌<◌, String, ◌≡◌, ◌↔◌, inl, inr, refl, sym, ap, subst, ◌∙◌, true, Bool-cases,
  some, List, [], ◌∷◌, length, elem, arith, eq_iff,
}
use collective_capability_ru.Optimizer.Values.{same_set, subset}
use collective_capability_ru.Optimizer.Acyclic.{all_found}
use collective_capability_ru.Optimizer.Invalidation.{
  Asset, add, visit, settle, invalidate, unexpired, spread, withdraw,
}
use collective_capability_ru.Optimizer.Descendants.{
  Fallen, given, kept_visit, visit_fixed, visit-Fallen, Fallen-elem, missing, missing-le-length,
  visit-missing-lt,
}

each_in_subset :
    (xs ys : List String)
    → ((x : String) → elem x xs ≡ true → elem x ys ≡ true)
    → subset xs ys ≡ true
unfolding subset
each_in_subset [] ys h = refl
each_in_subset (x ∷ xs) ys h =
    let later = each_in_subset xs ys (λ y there. h y (ground arith)) in
    ground (arith, h x, eq_iff x x)

in_both :
    (xs ys : List String) → subset xs ys ≡ true → (x : String) → elem x xs ≡ true → elem x ys ≡ true
unfolding subset
in_both xs ys h x there = all_found (λ x. elem x ys) xs x h there

-- The set that a round is compared with is the same where the round adds nothing.
same_set-visit :
    (assets : List Asset) (t : List String)
    → same_set t (visit assets t) ≡ subset (visit assets t) t
unfolding same_set
same_set-visit assets t = rw (each_in_subset t (visit assets t) (kept_visit assets t)) refl

spread_fixed :
    (rounds : ℕ) (assets : List Asset) (t : List String)
    → visit assets t ≡ t
    → spread rounds assets t ≡ t
unfolding spread
spread_fixed zero assets t e = refl
spread_fixed (suc rounds) assets t e = ap (spread rounds assets) e ∙ spread_fixed rounds assets t e

module _ (assets : List Asset) (start : List String) where
  -- What a list on the way has: the start, and only what falls.
  record IsUnderway (t : List String) : Type 0 where
    has : (x : String) → elem x start ≡ true → elem x t ≡ true
    sound : (x : String) → elem x t ≡ true → Fallen assets start x

  visit-IsUnderway : (t : List String) → IsUnderway t → IsUnderway (visit assets t)
  visit-IsUnderway t u = record {
    has = λ x there. kept_visit assets t x (u.has x there);
    sound = visit-Fallen assets start assets t (λ a among. among) u.sound;
  }

  fixed_exact :
      (t : List String)
      → IsUnderway t
      → subset (visit assets t) t ≡ true
      → (visit assets t ≡ t) × ((x : String) → (elem x t ≡ true) ↔ Fallen assets start x)
  fixed_exact t u h =
      let (same, closed) = visit_fixed assets t (in_both (visit assets t) t h) in
      (same, λ x. (u.sound x, Fallen-elem assets start t u.has closed x))

  settle_exact :
      (rounds : ℕ) (t : List String)
      → missing assets t < rounds
      → IsUnderway t
      → (r : List String) × (settle rounds assets t ≡ some r)
        × ((x : String) → (elem x r ≡ true) ↔ Fallen assets start x)
  unfolding settle
  settle_exact zero t enough u = elim enough [ ]
  settle_exact (suc rounds) t enough u = elim (Bool-cases (subset (visit assets t) t)) [
    | inl done ↦
        let (same, exact) = fixed_exact t u done in
        (
          visit assets t,
          rw (same_set-visit assets t, done) refl,
          subst (λ r. (x : String) → (elem x r ≡ true) ↔ Fallen assets start x) (sym same) exact,
        )
    | inr goes ↦
        let (r, e, exact) =
          settle_exact rounds (visit assets t) (omega (arith, visit-missing-lt assets t goes))
            (visit-IsUnderway t u) in
        (r, rw (same_set-visit assets t, goes) e, exact)
  ]

  spread_exact :
      (rounds : ℕ) (t : List String)
      → missing assets t ≤ rounds
      → IsUnderway t
      → (x : String) → (elem x (spread rounds assets t) ≡ true) ↔ Fallen assets start x
  unfolding spread
  spread_exact zero t enough u x = elim (Bool-cases (subset (visit assets t) t)) [
    | inl done ↦ (fixed_exact t u done).1 x
    | inr goes ↦ absurd (none_left (visit-missing-lt assets t goes) enough)
  ]
    where
      none_left : {m n : ℕ} → m < n → n ≤ 0 → ⊥
      none_left h k = omega arith
  spread_exact (suc rounds) t enough u x = elim (Bool-cases (subset (visit assets t) t)) [
    | inl done ↦
        let (same, exact) = fixed_exact t u done in
        subst (λ r. (elem x r ≡ true) ↔ Fallen assets start x)
          (sym (ap (spread rounds assets) same ∙ spread_fixed rounds assets t same)) (exact x)
    | inr goes ↦
        spread_exact rounds (visit assets t) (omega (arith, visit-missing-lt assets t goes))
          (visit-IsUnderway t u) x
  ]

  start-IsUnderway : IsUnderway start
  start-IsUnderway = record { has = λ x h. h; sound = λ x h. given x h }

length-unexpired : (assets : List Asset) → length (unexpired assets) ≡ length assets
unfolding unexpired
length-unexpired [] = refl
length-unexpired (a ∷ assets) = ap suc (length-unexpired assets)

-- The loop at the end of replay returns, and the assets that are invalidated then are exactly those
-- that were, that are expired, or that are made of an invalidated one, over any number of steps; and
-- the rounds at an event of a lifecycle are enough to reach exactly those that are made of the
-- asset, or of one that was invalidated, over any number of steps.
pub invalidate_exact :
    (assets : List Asset) (invalid : List String)
    → ((r : List String) × (invalidate assets invalid ≡ some r)
        × ((x : String) → (elem x r ≡ true) ↔ Fallen assets invalid x))
      × ((asset x : String)
          → (elem x (withdraw assets asset invalid) ≡ true)
            ↔ Fallen (unexpired assets) (add asset invalid) x)
unfolding invalidate withdraw
invalidate_exact assets invalid = (
  settle_exact assets invalid (suc (length assets)) invalid
      (omega (arith, missing-le-length assets invalid)) (start-IsUnderway assets invalid),
  λ asset x.
      spread_exact (unexpired assets) (add asset invalid) (length assets) (add asset invalid)
        (subst (λ n. missing (unexpired assets) (add asset invalid) ≤ n) (length-unexpired assets)
          (missing-le-length (unexpired assets) (add asset invalid)))
        (start-IsUnderway (unexpired assets) (add asset invalid)) x,
)
