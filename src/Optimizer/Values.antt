-- ===== src/Optimizer/Values.antt =====
-- optimizer/growth_model.py: the checks of single values in a closed profile.
use collective_capability_ru.Prelude.{
  ℕ, ◌^◌, String, Bool, true, not, ◌&&◌, ◌||◌, Option, none, some, List, [], ◌∷◌, length, all, leb,
  ◌==◌, elem,
}
use collective_capability_ru.Prelude.Int.{ℤ, pos, leb_ℤ}
use collective_capability_ru.Prelude.Text.{codes, is_empty, is_digit, ◌<>◌}
use collective_capability_ru.Prelude.Words.{join_words}
use collective_capability_ru.Result.{Result, ok, err, value_error, require, ◌>>=◌, ◌>>◌}
use collective_capability_ru.Json.{Json, Items, Dict, int, str, arr, obj, nil, cons, end, entry}

abbrev pub keys_of : Dict → List String
keys_of end = []
keys_of (entry k v d) = k ∷ keys_of d

-- `set(xs) <= set(ys)`
unfoldable pub subset : List String → List String → Bool
subset xs ys = all (λ x. elem x ys) xs

-- `set(xs) == set(ys)`
unfoldable pub same_set : List String → List String → Bool
unfolding subset
same_set xs ys = subset xs ys && subset ys xs

-- `len(set(xs)) == len(xs)`
unfoldable pub is_distinct : List String → Bool
is_distinct [] = true
is_distinct (x ∷ xs) = not (elem x xs) && is_distinct xs

unfoldable pub closed_dict : Dict → List String → Result Dict
unfolding same_set join_words
closed_dict d fields = do
  require (same_set (keys_of d) fields)
      (value_error ("closed record requires exactly: " <> join_words fields))
  ok d

-- `closed`, of the fields that the text lists
unfoldable pub closed : Json → List String → Result Dict
unfolding closed_dict join_words
closed (obj d) fields = closed_dict d fields
closed _ fields = err (value_error ("closed record requires exactly: " <> join_words fields))

-- `2**53`
abbrev pub largest : ℤ
largest = pos (2 ^ 53)

-- `integer`; a boolean is not one.
unfoldable pub integer : ℤ → ℤ → Json → Result ℤ
integer minimum maximum (int n) = do
  require (leb_ℤ minimum n && leb_ℤ n maximum)
      (value_error "integer base units outside finite range")
  ok n
integer minimum maximum _ = err (value_error "integer base units outside finite range")

-- `text`
unfoldable pub text : Json → Result String
text (str s) = do
  require (not (is_empty s) && leb (length (codes s)) 4096)
      (value_error "nonempty bounded text required")
  ok s
text _ = err (value_error "nonempty bounded text required")

is_hex : ℕ → Bool
is_hex c = is_digit c || (leb b'a' c && leb c b'f')

-- `digest`: 64 digits of `[0-9a-f]`
unfoldable pub digest : Json → Result String
unfolding is_hex
digest (str s) = do
  require (length (codes s) == 64 && all is_hex (codes s)) (value_error "SHA256 digest required")
  ok s
digest _ = err (value_error "SHA256 digest required")

-- `{k: integer(v) for k, v in value.items()}`
unfoldable pub integer_values : Dict → Result (List (String × ℤ))
unfolding integer
integer_values end = ok []
integer_values (entry k v d) = do
  n ← integer (pos 0) largest v
  rest ← integer_values d
  ok ((k, n) ∷ rest)

-- `integers`
unfoldable pub integers : Json → List String → Result (List (String × ℤ))
unfolding integer_values same_set
integers (obj d) keys = do
  require (same_set (keys_of d) keys) (value_error "every declared unit must be present")
  integer_values d
integers _ keys = err (value_error "every declared unit must be present")

-- The texts of a list that has no other values.
unfoldable pub texts_of : Items → Option (List String)
texts_of nil = some []
texts_of (cons (str s) xs) = elim (texts_of xs) [ none ↦ none | some rest ↦ some (s ∷ rest) ]
texts_of (cons _ xs) = none

unfoldable pub size_of : Items → ℕ
size_of nil = 0
size_of (cons x xs) = ℕ.suc (size_of xs)

-- `[text(v) for v in values]`
unfoldable pub each_text : List String → Result (List String)
unfolding text
each_text [] = ok []
each_text (s ∷ ss) = do t ← text (str s); ts ← each_text ss; ok (t ∷ ts)

unfoldable pub distinct_values : Option (List String) → Result (List String)
unfolding each_text is_distinct
distinct_values none = err (value_error "unique strings required")
distinct_values (some ss) = do
  require (is_distinct ss) (value_error "unique strings required")
  each_text ss

-- `unique`
unfoldable pub unique : ℕ → Json → Result (List String)
unfolding distinct_values size_of texts_of
unique limit (arr xs) = do
  require (leb (size_of xs) limit) (value_error "bounded list required")
  distinct_values (texts_of xs)
unique limit _ = err (value_error "bounded list required")
