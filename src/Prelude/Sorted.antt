-- ===== src/Prelude/Sorted.antt =====
-- Sorted lists of texts, as `sorted(xs)` and `sorted(set(xs))` give them.
use Prim.Native.Nat.{Ordering}
use Prim.Native.String.{String, compare as compare_text}
use mathlib.Core.Path.{◌≡◌, refl, ap, ◌∙◌}
use mathlib.Core.Bool.{◌||◌}
use mathlib.Core.List.{List, [], ◌∷◌}
use native.Mathlib.Omega.{arith}
use text.Mathlib.TextEquality.{eq_iff}
use collective_capability_ru.Prelude.Tests.{str_eq}
use collective_capability_ru.Prelude.Lists.{elem}

-- Keeps an equal text before the one that is put in.
unfoldable pub insert_text : String → List String → List String
insert_text x [] = x ∷ []
insert_text x (y ∷ ys) =
    let later = insert_text x ys in
    elim (compare_text x y) [ Ordering.lt ↦ x ∷ y ∷ ys | _ ↦ y ∷ later ]

unfoldable pub sort_texts : List String → List String
unfolding insert_text
sort_texts [] = []
sort_texts (x ∷ xs) = insert_text x (sort_texts xs)

-- As above, but a text that is there already is not put in again.
unfoldable pub insert_new : String → List String → List String
insert_new x [] = x ∷ []
insert_new x (y ∷ ys) =
    let later = insert_new x ys in
    elim (compare_text x y) [
      | Ordering.lt ↦ x ∷ y ∷ ys
      | Ordering.eq ↦ y ∷ ys
      | Ordering.gt ↦ y ∷ later
    ]

unfoldable pub sorted_set : List String → List String
unfolding insert_new
sorted_set [] = []
sorted_set (x ∷ xs) = insert_new x (sorted_set xs)

-- `sorted(set(xs))` has the texts of `xs` and no other.
elem-insert_new :
    (t x : String) (xs : List String) → elem t (insert_new x xs) ≡ (str_eq t x || elem t xs)
unfolding insert_new
elem-insert_new t x [] = refl
elem-insert_new t x (y ∷ ys) =
    ground (arith, eq_iff t x, eq_iff t y, eq_iff x y, elem-insert_new t x ys)

pub elem-sorted_set : (t : String) (xs : List String) → elem t (sorted_set xs) ≡ elem t xs
unfolding sorted_set
elem-sorted_set t [] = refl
elem-sorted_set t (x ∷ xs) =
    elem-insert_new t x (sorted_set xs) ∙ ap (λ b. str_eq t x || b) (elem-sorted_set t xs)
