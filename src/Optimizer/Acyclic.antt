-- ===== src/Optimizer/Acyclic.antt =====
-- The lineage loop ends, and tells the cyclic lineages from the others.
use collective_capability_ru.Prelude.{
  ℕ, zero, suc, ◌≤◌, ◌<◌, String, ◌≡◌, ◌≢◌, ◌↔◌, inl, inr, refl, Bool, true, false, ◌&&◌,
  Bool-cases, List, [], ◌∷◌, any, all, length, elem, arith, eq_iff, eq_refl, if◌then◌else◌,
}
use collective_capability_ru.Optimizer.Lineage.{
  Parents, parents_of, is_held, held, acyclic, unfinished, lineage, check_lineage,
}

pub any_found :
    (f : String → Bool) (xs : List String)
    → any f xs ≡ true
    → (x : String) × (elem x xs ≡ true) × (f x ≡ true)
any_found f [] h = cc
any_found f (x ∷ xs) h = elim (Bool-cases (f x)) [
  | inl here ↦ (x, simp eq_refl, here)
  | inr other ↦ let (y, there, e) = any_found f xs (rw other at h) in (y, ground arith, e)
]

pub all_found :
    (f : String → Bool) (xs : List String) (x : String)
    → all f xs ≡ true
    → elem x xs ≡ true
    → f x ≡ true
all_found f [] x h there = cc
all_found f (y ∷ ys) x h there = ground (arith, eq_iff x y, all_found f ys x)

pub found_any :
    (f : String → Bool) (xs : List String) (x : String)
    → elem x xs ≡ true
    → f x ≡ true
    → any f xs ≡ true
found_any f [] x there h = cc
found_any f (y ∷ ys) x there h = ground (arith, eq_iff x y, found_any f ys x)

module _ (table : Parents) where
  length-held-le : (remaining bs : List String) → length (held table remaining bs) ≤ length bs
  unfolding held
  length-held-le remaining [] = omega arith
  length-held-le remaining (a ∷ bs) = ground (arith, length-held-le remaining bs)

  -- A round that is not the last one removes an asset.
  length-held-lt :
      (remaining bs : List String)
      → all (is_held table remaining) bs ≡ false
      → length (held table remaining bs) < length bs
  unfolding held
  length-held-lt remaining [] h = cc
  length-held-lt remaining (a ∷ bs) h =
      ground (arith, length-held-le remaining bs, length-held-lt remaining bs)

  elem-held :
      (remaining bs : List String) (x : String)
      → elem x (held table remaining bs) ≡ (elem x bs && is_held table remaining x)
  unfolding held
  elem-held remaining [] x = refl
  elem-held remaining (a ∷ bs) x = ground (arith, eq_iff x a, elem-held remaining bs x)

  -- Parents come before their children, among these assets.
  abbrev pub IsRanking : (String → ℕ) → List String → Type 0
  IsRanking rank assets =
      (a p : String)
      → elem a assets ≡ true
      → elem p (parents_of table a) ≡ true
      → elem p assets ≡ true
      → rank p < rank a

  lineage_finished :
      (rounds : ℕ) (remaining : List String)
      → length remaining < rounds
      → lineage table rounds remaining ≢ unfinished
  unfolding lineage
  lineage_finished zero remaining h = elim h [ ]
  lineage_finished (suc rounds) [] h = cc
  lineage_finished (suc rounds) (a ∷ bs) h =
      elim (Bool-cases (all (is_held table (a ∷ bs)) (a ∷ bs))) [
        | inl stuck ↦ rw stuck cc
        | inr moves ↦ rw moves (
            lineage_finished rounds (held table (a ∷ bs) (a ∷ bs))
              (omega (arith, length-held-lt (a ∷ bs) (a ∷ bs) moves)))
      ]

  module _ (a : String) (bs : List String) where
    abbrev these : List String
    these = a ∷ bs

    in_these : (x : String) → elem x (held table these these) ≡ true → elem x these ≡ true
    in_these x h = ground (arith, elem-held these these x)

    -- A ranking of what is left, and the lowest rank for what is removed.
    one_higher : (String → ℕ) → String → ℕ
    one_higher rank x = if is_held table these x then suc (rank x) else 0

    one_higher-IsRanking :
        (rank : String → ℕ)
        → IsRanking rank (held table these these)
        → IsRanking (one_higher rank) these
    unfolding one_higher is_held
    one_higher-IsRanking rank r x p there parent among =
        let child = found_any (λ q. elem q these) (parents_of table x) p parent among in
        ground (arith, child, r x p, elem-held these these x, elem-held these these p)

    -- Where every asset has a parent among them, there is no ranking.
    descends :
        (rank : String → ℕ)
        → IsRanking rank these
        → all (is_held table these) these ≡ true
        → (n : ℕ) (x : String) → elem x these ≡ true
        → ¬ (rank x < n)
    unfolding is_held
    descends rank r stuck zero x there h = elim h [ ]
    descends rank r stuck (suc n) x there h =
        let (p, parent, among) =
          any_found (λ q. elem q these) (parents_of table x)
            (all_found (is_held table these) these x stuck there) in
        descends rank r stuck n p among (omega (arith, r x p there parent among))

    not_stuck : (rank : String → ℕ) → IsRanking rank these → all (is_held table these) these ≡ false
    not_stuck rank r = elim (Bool-cases (all (is_held table these) these)) [
      | inr moves ↦ moves
      | inl stuck ↦ absurd (descends rank r stuck (suc (rank a)) a (simp eq_refl) (omega arith))
    ]

  lineage-IsRanking :
      (rounds : ℕ) (remaining : List String)
      → lineage table rounds remaining ≡ acyclic
      → (rank : String → ℕ) × IsRanking rank remaining
  unfolding lineage
  lineage-IsRanking zero remaining h = cc
  lineage-IsRanking (suc rounds) [] h = (λ x. 0, λ a p there parent among. cc)
  lineage-IsRanking (suc rounds) (a ∷ bs) h =
      elim (Bool-cases (all (is_held table (a ∷ bs)) (a ∷ bs))) [
        | inl stuck ↦ cc (rw stuck at h)
        | inr moves ↦
            let (rank, r) =
              lineage-IsRanking rounds (held table (a ∷ bs) (a ∷ bs)) (rw moves at h) in
            (one_higher a bs rank, one_higher-IsRanking a bs rank r)
      ]

  ranked_acyclic :
      (rounds : ℕ) (remaining : List String) (rank : String → ℕ)
      → length remaining < rounds
      → IsRanking rank remaining
      → lineage table rounds remaining ≡ acyclic
  unfolding lineage
  ranked_acyclic zero remaining rank h r = elim h [ ]
  ranked_acyclic (suc rounds) [] rank h r = refl
  ranked_acyclic (suc rounds) (a ∷ bs) rank h r =
      let moves = not_stuck a bs rank r in
      rw moves (
        ranked_acyclic rounds (held table (a ∷ bs) (a ∷ bs)) rank
          (omega (arith, length-held-lt (a ∷ bs) (a ∷ bs) moves))
          (λ x p there parent among. r x p (in_these a bs x there) parent (in_these a bs p among)))

-- The loop ends by its own tests: the rounds that it is given are enough.
pub check_lineage_finished :
    (table : Parents) (assets : List String) → check_lineage table assets ≢ unfinished
unfolding check_lineage
check_lineage_finished table assets =
    lineage_finished table (suc (length assets)) assets (omega arith)

-- The check passes exactly where the assets can be ranked so that each parent among them comes
-- before its children.
pub check_lineage_iff :
    (table : Parents) (assets : List String)
    → (check_lineage table assets ≡ acyclic) ↔ ((rank : String → ℕ) × IsRanking table rank assets)
unfolding check_lineage
check_lineage_iff table assets = (
  lineage-IsRanking table (suc (length assets)) assets,
  λ (rank, r). ranked_acyclic table (suc (length assets)) assets rank (omega arith) r,
)
