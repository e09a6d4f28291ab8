-- ===== src/Tasks/Scheduler/Order.antt =====
-- The first of the sorted candidates has the least key, by its score.
use collective_capability_ru.Prelude.{
  ◌≡◌, ◌≢◌, refl, ◌⊎◌, inl, inr, Bool, true, false, not, ◌&&◌, Bool-cases, List, [], ◌∷◌, All,
  Among, arith, if◌then◌else◌,
}
use collective_capability_ru.Floats.{Floats}
use collective_capability_ru.Tasks.Scheduler.Ranking.{Entry, key_lt, insert_entry, sort_entries}

-- The numbers that are compared are totally ordered, as floats are that are not NaN, and a sign
-- turns the order around.
pub record IsOrdered (floats : Floats) : Type 0 where
  pub asym : (x y : floats.Number) → floats.lt x y ≡ true → floats.lt y x ≡ false
  pub trans :
      (x y z : floats.Number)
      → floats.lt x y ≡ false
      → floats.lt y z ≡ false
      → floats.lt x z ≡ false
  pub connected :
      (x y : floats.Number) → floats.eq x y ≡ (not (floats.lt x y) && not (floats.lt y x))
  pub negated :
      (x y : floats.Number) → floats.lt (floats.negate x) (floats.negate y) ≡ floats.lt y x

module _ ⦃floats : Floats⦄ where
  -- No entry comes before `best` by its score.
  abbrev pub NoneBefore : Entry → List Entry → Type 0
  NoneBefore best xs = All (λ (e : Entry). floats.lt e.score best.score ≡ false) xs

  insert_entry-Among :
      (e x : Entry) (xs : List Entry) → Among e (insert_entry x xs) → (e ≡ x) ⊎ Among e xs
  unfolding insert_entry
  insert_entry-Among e x [] h = h
  insert_entry-Among e x (y ∷ ys) h = split (insert_entry-Among e x ys) (key_lt y x) h
    where
      deeper : (e ≡ y) ⊎ ((e ≡ x) ⊎ Among e ys) → (e ≡ x) ⊎ ((e ≡ y) ⊎ Among e ys)
      deeper (inl here) = inr (inl here)
      deeper (inr (inl new)) = inl new
      deeper (inr (inr there)) = inr (inr there)

      later :
          (Among e (insert_entry x ys) → (e ≡ x) ⊎ Among e ys)
          → (e ≡ y) ⊎ Among e (insert_entry x ys)
          → (e ≡ y) ⊎ ((e ≡ x) ⊎ Among e ys)
      later ih (inl here) = inl here
      later ih (inr there) = inr (ih there)

      split :
          (Among e (insert_entry x ys) → (e ≡ x) ⊎ Among e ys)
          → (b : Bool) → Among e (if b then y ∷ insert_entry x ys else x ∷ y ∷ ys)
          → (e ≡ x) ⊎ ((e ≡ y) ⊎ Among e ys)
      split ih true h = deeper (later ih h)
      split ih false h = h

  insert_entry-ne-nil : (x : Entry) (ys : List Entry) → insert_entry x ys ≢ []
  unfolding insert_entry
  insert_entry-ne-nil x [] h = cc
  insert_entry-ne-nil x (y ∷ ys) h = ground arith

  -- Only an empty list is sorted into one.
  pub sort_entries-nil : (xs : List Entry) → sort_entries xs ≡ [] → xs ≡ []
  unfolding sort_entries
  sort_entries-nil [] h = refl
  sort_entries-nil (x ∷ xs) h = absurd (insert_entry-ne-nil x (sort_entries xs) h)

  -- The sort makes no entry.
  pub sort_entries-Among : (e : Entry) (xs : List Entry) → Among e (sort_entries xs) → Among e xs
  unfolding sort_entries
  sort_entries-Among e [] h = h
  sort_entries-Among e (x ∷ xs) h = elim (insert_entry-Among e x (sort_entries xs) h) [
    | inl here ↦ inl here
    | inr there ↦ inr (sort_entries-Among e xs there)
  ]

  module _ (laws : IsOrdered floats) where
    later_score : (x y : Entry) → key_lt y x ≡ true → floats.lt x.score y.score ≡ false
    unfolding key_lt
    later_score x y h = ground (arith, laws.connected y.score x.score, laws.asym y.score x.score)

    earlier_score : (x y : Entry) → key_lt y x ≡ false → floats.lt y.score x.score ≡ false
    unfolding key_lt
    earlier_score x y h = ground (arith, laws.connected y.score x.score)

    no_less : (x : floats.Number) → floats.lt x x ≡ false
    no_less x = ground (arith, laws.asym x x)

    lower :
        (x y : Entry) (zs : List Entry)
        → floats.lt y.score x.score ≡ false
        → NoneBefore y zs
        → NoneBefore x zs
    lower x y [] h none_before = tt
    lower x y (z ∷ zs) h (p, ps) = (laws.trans _ _ _ p h, lower x y zs h ps)

    -- No entry comes before the first one.
    abbrev pub IsHeaded : List Entry → Type 0
    IsHeaded [] = Unit {0}
    IsHeaded (x ∷ xs) = NoneBefore x (x ∷ xs)

    none_insert :
        (b x : Entry) (ys : List Entry)
        → floats.lt x.score b.score ≡ false
        → NoneBefore b ys
        → NoneBefore b (insert_entry x ys)
    unfolding insert_entry
    none_insert b x [] h ps = (h, tt)
    none_insert b x (y ∷ ys) h (p, ps) =
        elim (key_lt y x) as (λ c. NoneBefore b (if c then y ∷ insert_entry x ys else x ∷ y ∷ ys)) [
          | true ↦ (p, none_insert b x ys h ps)
          | false ↦ (h, (p, ps))
        ]

    insert_entry-IsHeaded :
        (x : Entry) (ys : List Entry) → IsHeaded ys → IsHeaded (insert_entry x ys)
    unfolding insert_entry
    insert_entry-IsHeaded x [] h = (no_less x.score, tt)
    insert_entry-IsHeaded x (y ∷ ys) (p, ps) = elim (Bool-cases (key_lt y x)) [
      | inl later ↦ rw later (p, none_insert y x ys (later_score x y later) ps)
      | inr first ↦
          rw first
            (no_less x.score, (earlier_score x y first, lower x y ys (earlier_score x y first) ps))
    ]

    pub sort_entries-IsHeaded : (xs : List Entry) → IsHeaded (sort_entries xs)
    unfolding sort_entries
    sort_entries-IsHeaded [] = tt
    sort_entries-IsHeaded (x ∷ xs) =
        insert_entry-IsHeaded x (sort_entries xs) (sort_entries-IsHeaded xs)

    -- A bound of the inserted list bounds what it was made of.
    none_inserted :
        (b x : Entry) (ys : List Entry)
        → NoneBefore b (insert_entry x ys)
        → (floats.lt x.score b.score ≡ false) × NoneBefore b ys
    unfolding insert_entry
    none_inserted b x [] (h, _) = (h, tt)
    none_inserted b x (y ∷ ys) h = split (none_inserted b x ys) (key_lt y x) h
      where
        split :
            (NoneBefore b (insert_entry x ys)
              → (floats.lt x.score b.score ≡ false) × NoneBefore b ys)
            → (c : Bool) → NoneBefore b (if c then y ∷ insert_entry x ys else x ∷ y ∷ ys)
            → (floats.lt x.score b.score ≡ false) × NoneBefore b (y ∷ ys)
        split ih true (p, ps) = let (q, qs) = ih ps in (q, (p, qs))
        split ih false (q, ps) = (q, ps)

    pub none_sorted :
        (b : Entry) (xs : List Entry) → NoneBefore b (sort_entries xs) → NoneBefore b xs
    unfolding sort_entries
    none_sorted b [] h = tt
    none_sorted b (x ∷ xs) h =
        let (q, qs) = none_inserted b x (sort_entries xs) h in (q, none_sorted b xs qs)
