-- ===== src/Optimizer/Ranked.antt =====
-- What the lineage of a profile that `normalize` accepts is like.
use collective_capability_ru.Prelude.{ℕ, String, ◌≡◌, true, false, List, [], ◌∷◌, elem, str_eq}
use collective_capability_ru.Prelude.Map.{string_eq}
use collective_capability_ru.Json.{Json, Dict, end, entry}
use collective_capability_ru.Env.{Env}
use collective_capability_ru.Optimizer.Values.{keys_of}
use collective_capability_ru.Optimizer.Listed.{HasParents}
use collective_capability_ru.Optimizer.Lineage.{Parents, parents_of}
use collective_capability_ru.Optimizer.Acyclic.{IsRanking}
use collective_capability_ru.Optimizer.Profile.{asset_names}

module _ ⦃env : Env⦄ where
  -- The parents of a declared asset are declared, and are others.
  abbrev pub HasKnownParents : List String → Parents → Type 0
  HasKnownParents assets table =
      (a p : String)
      → elem p (parents_of table a) ≡ true
      → (elem p assets ≡ true) × (str_eq p a ≡ false)

  -- The table has the declared assets in their order, each with the parents that its record lists.
  abbrev pub Sourced : Dict → Parents → Type 0
  Sourced end [] = Unit {0}
  Sourced (entry asset spec d) ((a, ps) ∷ table) =
      (a ≡ asset) × HasParents spec ps × Sourced d table
  Sourced end (_ ∷ table) = ⊥
  Sourced (entry asset spec d) [] = ⊥

  -- What `normalize` accepts has a lineage of declared assets that can be ranked.
  pub record IsLineage (assets : Dict) (table : Parents) : Type 0 where
    pub sourced : Sourced assets table
    pub names : asset_names table ≡ keys_of assets
    pub known : HasKnownParents (keys_of assets) table
    pub rank : String → ℕ
    pub ranked : IsRanking table rank (keys_of assets)
