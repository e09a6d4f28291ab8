-- ===== src/Optimizer/Descendants.antt =====
-- Which assets `replay` has invalidated in the end.
use collective_capability_ru.Prelude.{
  ℕ, suc, ◌≤◌, ◌<◌, String, ◌≡◌, ◌⊎◌, inl, inr, refl, sym, ap, subst, ◌∙◌, true, false, ◌||◌,
  Bool-cases, List, [], ◌∷◌, length, elem, arith, eq_iff, eq_refl, str_eq, if◌then◌else◌,
}
use collective_capability_ru.Optimizer.Values.{subset}
use collective_capability_ru.Optimizer.Acyclic.{any_found, found_any}
use collective_capability_ru.Optimizer.Invalidation.{Asset, add, falls, visit_asset, visit}

abbrev pub Among : Asset → List Asset → Type 0
Among a [] = ⊥
Among a (b ∷ bs) = (a ≡ b) ⊎ Among a bs

-- An asset falls if it is named at the start, is expired, or is made of one that falls.
pub data Fallen (assets : List Asset) (start : List String) : String → Type 0 where
  given : (x : String) → elem x start ≡ true → Fallen assets start x
  expiry : (a : Asset) → Among a assets → a.expired ≡ true → Fallen assets start a.name
  inherited :
      (a : Asset) (p : String)
      → Among a assets
      → elem p a.parents ≡ true
      → Fallen assets start p
      → Fallen assets start a.name

elem-add : (x y : String) (s : List String) → elem y (add x s) ≡ (str_eq y x || elem y s)
unfolding add
elem-add x y s = ground (arith, eq_iff y x)

kept_visit_asset :
    (a : Asset) (s : List String) (x : String) → elem x s ≡ true → elem x (visit_asset a s) ≡ true
unfolding visit_asset
kept_visit_asset a s x h = ground (arith, elem-add a.name x s)

pub kept_visit :
    (assets : List Asset) (s : List String) (x : String)
    → elem x s ≡ true
    → elem x (visit assets s) ≡ true
unfolding visit
kept_visit [] s x h = h
kept_visit (a ∷ assets) s x h = kept_visit assets (visit_asset a s) x (kept_visit_asset a s x h)

fallen_there :
    (a : Asset) (s : List String) → falls a s ≡ true → elem a.name (visit_asset a s) ≡ true
unfolding visit_asset
fallen_there a s h = ground (arith, elem-add a.name a.name s, eq_iff a.name a.name)

unchanged :
    (a : Asset) (s : List String) → (falls a s ≡ true → elem a.name s ≡ true) → visit_asset a s ≡ s
unfolding visit_asset add
unchanged a s h = elim (Bool-cases (falls a s)) [
  | inl fell ↦ let there = h fell in rw (fell, there) refl
  | inr stands ↦ rw stands refl
]

-- A round that adds no asset leaves the list as it is, and then none of the assets falls anew.
pub visit_fixed :
    (assets : List Asset) (s : List String)
    → ((x : String) → elem x (visit assets s) ≡ true → elem x s ≡ true)
    → (visit assets s ≡ s)
      × ((a : Asset) → Among a assets → falls a s ≡ true → elem a.name s ≡ true)
unfolding visit
visit_fixed [] s h = (refl, λ a among. elim among [ ])
visit_fixed (a ∷ assets) s h =
    let here : falls a s ≡ true → elem a.name s ≡ true =
      λ fell. h a.name (kept_visit assets (visit_asset a s) a.name (fallen_there a s fell)) in
    let same = unchanged a s here in
    let (stays, later) =
      visit_fixed assets s
        (λ x there. h x (subst (λ t. elem x (visit assets t) ≡ true) (sym same) there)) in
    (
      ap (visit assets) same ∙ stays,
      λ b among fell. elim among [
        | inl e ↦ subst (λ c. falls c s ≡ true → elem c.name s ≡ true) (sym e) here fell
        | inr other ↦ later b other fell
      ],
    )

module _ (assets : List Asset) (start : List String) where
  falls-Fallen :
      (a : Asset) (s : List String)
      → Among a assets
      → ((x : String) → elem x s ≡ true → Fallen assets start x)
      → falls a s ≡ true
      → Fallen assets start a.name
  unfolding falls
  falls-Fallen a s among sound h = elim (Bool-cases a.expired) [
    | inl over ↦ expiry a among over
    | inr valid ↦
        let (p, parent, there) = any_found (λ p. elem p s) a.parents (ground arith) in
        inherited a p among parent (sound p there)
  ]

  visit_asset-Fallen :
      (a : Asset) (s : List String)
      → Among a assets
      → ((x : String) → elem x s ≡ true → Fallen assets start x)
      → (x : String) → elem x (visit_asset a s) ≡ true
      → Fallen assets start x
  unfolding visit_asset
  visit_asset-Fallen a s among sound x h = elim (Bool-cases (falls a s)) [
    | inr stands ↦ sound x (ground arith)
    | inl fell ↦ elim (Bool-cases (str_eq x a.name)) [
      | inl same ↦
          subst (Fallen assets start) (sym ((eq_iff x a.name).0 same))
            (falls-Fallen a s among sound fell)
      | inr other ↦ sound x (ground (arith, elem-add a.name x s))
    ]
  ]

  -- What a round adds falls by the rules.
  pub visit-Fallen :
      (bs : List Asset) (s : List String)
      → ((a : Asset) → Among a bs → Among a assets)
      → ((x : String) → elem x s ≡ true → Fallen assets start x)
      → (x : String) → elem x (visit bs s) ≡ true
      → Fallen assets start x
  unfolding visit
  visit-Fallen [] s within sound x h = sound x h
  visit-Fallen (b ∷ bs) s within sound x h =
      visit-Fallen bs (visit_asset b s) (λ a among. within a (inr among))
        (visit_asset-Fallen b s (within b (inl refl)) sound) x h

  -- A list that has the start, and on which none of the assets falls anew, has all that fall.
  pub Fallen-elem :
      (s : List String)
      → ((x : String) → elem x start ≡ true → elem x s ≡ true)
      → ((a : Asset) → Among a assets → falls a s ≡ true → elem a.name s ≡ true)
      → (x : String) → Fallen assets start x
      → elem x s ≡ true
  unfolding falls
  Fallen-elem s has closed _ (given x h) = has x h
  Fallen-elem s has closed _ (expiry a among over) = closed a among (ground arith)
  Fallen-elem s has closed _ (inherited a p among parent f) =
      let there = Fallen-elem s has closed p f in
      closed a among (ground (arith, found_any (λ q. elem q s) a.parents p parent there))

-- How many of the assets are not in a list.
pub missing : List Asset → List String → ℕ
missing [] s = 0
missing (a ∷ assets) s = let rest = missing assets s in if elem a.name s then rest else suc rest

pub missing-le-length : (assets : List Asset) (s : List String) → missing assets s ≤ length assets
unfolding missing
missing-le-length [] s = omega arith
missing-le-length (a ∷ assets) s = ground (arith, missing-le-length assets s)

module _ (s t : List String) (more : (x : String) → elem x s ≡ true → elem x t ≡ true) where
  missing-le : (assets : List Asset) → missing assets t ≤ missing assets s
  unfolding missing
  missing-le [] = omega arith
  missing-le (a ∷ assets) = ground (arith, missing-le assets, more a.name)

  missing-lt :
      (assets : List Asset) (a : Asset)
      → Among a assets
      → elem a.name s ≡ false
      → elem a.name t ≡ true
      → missing assets t < missing assets s
  unfolding missing
  missing-lt [] a among fresh there = elim among [ ]
  missing-lt (b ∷ assets) a among fresh there = elim among [
    | inl e ↦
        let fresh_b = subst (λ c. elem c.name s ≡ false) e fresh in
        let there_b = subst (λ c. elem c.name t ≡ true) e there in
        rw (fresh_b, there_b) (omega (arith, missing-le assets))
    | inr other ↦ ground (arith, missing-lt assets a other fresh there, more b.name)
  ]

old_element :
    (a : Asset) (s : List String) (x : String)
    → str_eq x a.name ≡ false
    → elem x (visit_asset a s) ≡ true
    → elem x s ≡ true
unfolding visit_asset
old_element a s x other there = ground (arith, elem-add a.name x s)

-- What a round adds is the name of an asset.
visit_new :
    (assets : List Asset) (s : List String) (x : String)
    → elem x (visit assets s) ≡ true
    → (elem x s ≡ true) ⊎ ((a : Asset) × Among a assets × (x ≡ a.name))
unfolding visit
visit_new [] s x h = inl h
visit_new (a ∷ assets) s x h = elim (visit_new assets (visit_asset a s) x h) [
  | inr (b, among, e) ↦ inr (b, inr among, e)
  | inl there ↦ elim (Bool-cases (str_eq x a.name)) [
    | inl same ↦ inr (a, inl refl, (eq_iff x a.name).0 same)
    | inr other ↦ inl (old_element a s x other there)
  ]
]

not_subset :
    (xs ys : List String)
    → subset xs ys ≡ false
    → (x : String) × (elem x xs ≡ true) × (elem x ys ≡ false)
unfolding subset
not_subset [] ys h = cc
not_subset (x ∷ xs) ys h = elim (Bool-cases (elem x ys)) [
  | inr fresh ↦ (x, simp eq_refl, fresh)
  | inl there ↦ let (y, e, f) = not_subset xs ys (ground arith) in (y, ground arith, f)
]

-- A round that is not the last makes an asset fall.
pub visit-missing-lt :
    (assets : List Asset) (s : List String)
    → subset (visit assets s) s ≡ false
    → missing assets (visit assets s) < missing assets s
visit-missing-lt assets s h =
    let (x, there, fresh) = not_subset (visit assets s) s h in
    elim (visit_new assets s x there) [
      | inl old ↦ cc
      | inr (a, among, e) ↦
          missing-lt s (visit assets s) (kept_visit assets s) assets a among
            (subst (λ y. elem y s ≡ false) e fresh)
            (subst (λ y. elem y (visit assets s) ≡ true) e there)
    ]
