-- ===== src/Tests/Invalidating.antt =====
-- Runs of the invalidation in optimizer/growth_ledger.py.
use collective_capability_ru.Prelude.{
  String, ◌≡◌, ◌↔◌, refl, true, false, some, List, [], ◌∷◌, elem,
}
use collective_capability_ru.Optimizer.Invalidation.{Asset, invalidate, withdraw, unexpired, add}
use collective_capability_ru.Optimizer.Descendants.{Fallen}
use collective_capability_ru.Optimizer.Withdrawal.{invalidate_exact}

-- `c` is made of `b`, which is made of `a`; `d` stands alone and is expired.
abbrev assets : List Asset
assets =
    record { name = "c"; parents = "b" ∷ []; expired = false }
    ∷ record { name = "b"; parents = "a" ∷ []; expired = false }
    ∷ record { name = "a"; parents = []; expired = false }
    ∷ record { name = "d"; parents = []; expired = true }
    ∷ []

descendants_fall : invalidate assets ("a" ∷ []) ≡ some ("c" ∷ "d" ∷ "b" ∷ "a" ∷ [])
unfolding invalidate
descendants_fall = refl

expired_stays : withdraw assets "b" [] ≡ ("c" ∷ "b" ∷ [])
unfolding withdraw
expired_stays = refl

invalidate_exact_example :
    ((r : List String) × (invalidate assets ("a" ∷ []) ≡ some r)
      × ((x : String) → (elem x r ≡ true) ↔ Fallen assets ("a" ∷ []) x))
    × ((asset x : String)
        → (elem x (withdraw assets asset ("a" ∷ [])) ≡ true)
          ↔ Fallen (unexpired assets) (add asset ("a" ∷ [])) x)
invalidate_exact_example = invalidate_exact assets ("a" ∷ [])
