-- ===== src/Optimizer/Invalidation.antt =====
-- optimizer/growth_ledger.py: how `replay` carries the invalidation of an asset on to those that are
-- made of it, at an event of its lifecycle and at the end.
use collective_capability_ru.Prelude.{
  ℕ, zero, suc, String, Bool, false, ◌||◌, Option, none, some, List, [], ◌∷◌, any, elem, length,
  map, leb, if◌then◌else◌,
}
use collective_capability_ru.Result.{Result, ok, err, type_error, ◌>>=◌}
use collective_capability_ru.Json.{Json, Dict, arr, end, entry}
use collective_capability_ru.Json.Equality.{object_of}
use collective_capability_ru.Env.{Env}
use collective_capability_ru.Optimizer.Journal.{field}
use collective_capability_ru.Optimizer.Values.{same_set, texts_of}
use collective_capability_ru.Optimizer.Profile.{timestamp}

-- A declared asset, and whether `expires_at` is not after the current instant.
pub record Asset : Type 0 where
  pub name : String
  pub parents : List String
  pub expired : Bool

-- `invalidated.add(x)`
unfoldable pub add : String → List String → List String
add x invalid = if elem x invalid then invalid else x ∷ invalid

-- `expired or set(spec["parents"]) & invalidated`
unfoldable pub falls : Asset → List String → Bool
falls a invalid = a.expired || any (λ p. elem p invalid) a.parents

unfoldable pub visit_asset : Asset → List String → List String
unfolding falls add
visit_asset a invalid = if falls a invalid then add a.name invalid else invalid

-- One round over the declared assets; those that fall count for the later ones at once.
unfoldable pub visit : List Asset → List String → List String
unfolding visit_asset
visit [] invalid = invalid
visit (a ∷ assets) invalid = visit assets (visit_asset a invalid)

-- `while changed`, for a number of rounds; none where these are used up.
unfoldable pub settle : ℕ → List Asset → List String → Option (List String)
unfolding visit same_set
settle zero assets invalid = none
settle (suc rounds) assets invalid =
    let next = visit assets invalid in
    let rest = settle rounds assets next in if same_set invalid next then some next else rest

-- The loop over all assets: each round but the last makes one of them fall.
unfoldable pub invalidate : List Asset → List String → Option (List String)
unfolding settle
invalidate assets invalid = settle (suc (length assets)) assets invalid

-- The assets at an event of a lifecycle, where no expiry counts.
unfoldable pub unexpired : List Asset → List Asset
unexpired assets = map (λ a. record { name = a.name; parents = a.parents; expired = false }) assets

-- `for _ in g["assets"]: invalidated.update(...)`
unfoldable pub spread : ℕ → List Asset → List String → List String
unfolding visit
spread zero assets invalid = invalid
spread (suc rounds) assets invalid = spread rounds assets (visit assets invalid)

-- The branch of a lifecycle event that names an asset.
unfoldable pub withdraw : List Asset → String → List String → List String
unfolding spread unexpired add
withdraw assets asset invalid = spread (length assets) (unexpired assets) (add asset invalid)

module _ ⦃env : Env⦄ where
  abbrev pub parents_read : Json → Result (List String)
  parents_read (arr xs) = elim (texts_of xs) [ none ↦ err type_error | some ps ↦ ok ps ]
  parents_read _ = err type_error

  -- The declared assets of a profile, as they stand at an instant.
  unfoldable pub assets_at : ℕ → Dict → Result (List Asset)
  unfolding field object_of timestamp texts_of
  assets_at current end = ok []
  assets_at current (entry name spec d) = do
    s ← object_of spec
    expiry ← field "expires_at" s
    until ← timestamp expiry
    listed ← field "parents" s
    parents ← parents_read listed
    rest ← assets_at current d
    ok (record { name = name; parents = parents; expired = leb until current } ∷ rest)
