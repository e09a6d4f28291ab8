-- ===== src/Optimizer/Lineage.antt =====
-- The loop of `normalize` (optimizer/growth_model.py) that removes the assets without a parent left,
-- round by round.
use collective_capability_ru.Prelude.{
  ℕ, zero, suc, String, Bool, none, some, List, [], ◌∷◌, any, all, length, elem, if◌then◌else◌,
}
use collective_capability_ru.Prelude.Map.{string_eq, lookup}

-- The parents of each declared asset.
abbrev pub Parents : Type 0
Parents = List (String × List String)

unfoldable pub parents_of : Parents → String → List String
parents_of table a = elim (lookup a table) [ none ↦ [] | some ps ↦ ps ]

-- `set(assets[a]["parents"]) & remaining` is not empty.
unfoldable pub is_held : Parents → List String → String → Bool
unfolding parents_of
is_held table remaining a = any (λ p. elem p remaining) (parents_of table a)

-- `remaining - removable`: the assets that a parent holds.
unfoldable pub held : Parents → List String → List String → List String
unfolding is_held
held table remaining [] = []
held table remaining (a ∷ bs) =
    let rest = held table remaining bs in if is_held table remaining a then a ∷ rest else rest

-- How the loop ends; it has no end of its own when the rounds are used up.
pub data Lineage : Type 0 where
  acyclic cyclic unfinished : Lineage

-- `while remaining`, for a number of rounds; `cyclic` is where `normalize` raises.
unfoldable pub lineage : Parents → ℕ → List String → Lineage
unfolding held is_held
lineage table zero remaining = unfinished
lineage table (suc rounds) [] = acyclic
lineage table (suc rounds) (a ∷ bs) =
    let rest = lineage table rounds (held table (a ∷ bs) (a ∷ bs)) in
    if all (is_held table (a ∷ bs)) (a ∷ bs) then cyclic else rest

-- The loop over all assets: each round removes one at least, and the last one sees none.
unfoldable pub check_lineage : Parents → List String → Lineage
unfolding lineage
check_lineage table assets = lineage table (suc (length assets)) assets
