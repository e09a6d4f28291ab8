-- ===== src/Json/Python.antt =====
-- Python's own operations on decoded JSON: truth, `isinstance`, `int()`, comparison.
use collective_capability_ru.Prelude.{
  ℕ, zero, suc, ◌+◌, ◌-◌, ◌*◌, ◌/◌, ◌^◌, String, Bool, true, false, not, ◌&&◌, ◌||◌, Option, none,
  some, List, [], ◌∷◌, str_eq, elem, ◌==◌, if◌then◌else◌,
}
use collective_capability_ru.Prelude.Int.{ℤ, pos, negsuc}
use collective_capability_ru.Prelude.Text.{codes, is_digit, is_empty}
use collective_capability_ru.Result.{Result, ok, err, value_error, type_error, overflow_error}
use collective_capability_ru.Json.{
  Float, Json, Dict, finite, inf, nan, null, bool, int, float, str, arr, obj, nil, cons, end, entry,
}

-- `bool(value)`.
abbrev pub truthy : Json → Bool
truthy null = false
truthy (bool b) = b
truthy (int (pos zero)) = false
truthy (int _) = true
truthy (float (finite _ m _)) = not (m == 0)
truthy (float _) = true
truthy (str s) = not (is_empty s)
truthy (arr nil) = false
truthy (arr (cons _ _)) = true
truthy (obj end) = false
truthy (obj (entry _ _ _)) = true

-- `d.get(k) or default`.
abbrev pub or_default : Option Json → Json → Json
or_default none y = y
or_default (some x) y = if truthy x then x else y

-- `d.get(k, default)`.
abbrev pub get_default : Option Json → Json → Json
get_default none y = y
get_default (some x) y = x

-- `value if isinstance(value, dict) else {}`.
abbrev pub as_dict : Option Json → Dict
as_dict (some (obj d)) = d
as_dict _ = end

abbrev pub is_dict : Option Json → Bool
is_dict (some (obj d)) = true
is_dict _ = false

-- `value == text`, for a value read by `d.get`.
abbrev pub is_str : Option Json → String → Bool
is_str (some (str s)) t = str_eq s t
is_str _ t = false

-- `value is True`.
abbrev pub is_true : Option Json → Bool
is_true (some (bool b)) = b
is_true _ = false

-- `value == agent` where `agent` is a text or `None`.
abbrev pub is_opt_str : Option Json → Option String → Bool
is_opt_str v (some t) = is_str v t
is_opt_str none none = true
is_opt_str (some null) none = true
is_opt_str (some _) none = false

signed : Bool → ℕ → ℤ
signed false n = pos n
signed true zero = pos 0
signed true (suc n) = negsuc n

-- `int(x)` of a finite float drops the fraction.
truncate : Float → Option ℤ
unfolding signed
truncate (finite s m (pos e)) = some (signed s (m * 2 ^ e))
truncate (finite s m (negsuc e)) = some (signed s (m / 2 ^ (suc e)))
truncate _ = none

is_space : ℕ → Bool
is_space c = c == 32 || c == 9 || c == 10 || c == 11 || c == 12 || c == 13

all_spaces : List ℕ → Bool
unfolding is_space
all_spaces [] = true
all_spaces (c ∷ cs) = is_space c && all_spaces cs

-- After a digit: more digits, one `_` before a digit, or spaces to the end.
mutual
  more_digits : ℕ → List ℕ → Option ℕ
  more_digits n [] = some n
  more_digits n (c ∷ cs) =
      let next = more_digits (n * 10 + (c - 48)) cs in
      let gap = need_digit n cs in
      if is_digit c
      then next
      else if c == b'_'
      then gap
      else if all_spaces (c ∷ cs)
      then some n
      else none

  need_digit : ℕ → List ℕ → Option ℕ
  need_digit n [] = none
  need_digit n (c ∷ cs) =
      let next = more_digits (n * 10 + (c - 48)) cs in if is_digit c then next else none

-- The digits that `int(text)` reads, between spaces; ASCII digits only.
unsigned_text : List ℕ → Option ℕ
unfolding need_digit
unsigned_text cs = need_digit 0 cs

signed_text : List ℕ → Option ℤ
unfolding unsigned_text is_space signed
signed_text [] = none
signed_text (c ∷ cs) =
    let rest = signed_text cs in
    if is_space c
    then rest
    else if c == b'-'
    then minus (unsigned_text cs)
    else if c == b'+'
    then plus (unsigned_text cs)
    else plus (unsigned_text (c ∷ cs))
  where
    minus : Option ℕ → Option ℤ
    minus none = none
    minus (some n) = some (signed true n)

    plus : Option ℕ → Option ℤ
    plus none = none
    plus (some n) = some (pos n)

-- `int(value)`.
unfoldable pub to_int : Json → Result ℤ
unfolding truncate signed_text all_spaces is_space
to_int null = err type_error
to_int (bool false) = ok (pos 0)
to_int (bool true) = ok (pos 1)
to_int (int n) = ok n
to_int (float (inf s)) = err overflow_error
to_int (float nan) = err (value_error "cannot convert float NaN to integer")
to_int (float (finite s m e)) = elim (truncate (finite s m e)) [
  | some n ↦ ok n
  | none ↦ err overflow_error
]
to_int (str s) = elim (signed_text (codes s)) [
  | some n ↦ ok n
  | none ↦ err (value_error "invalid literal for int()")
]
to_int (arr _) = err type_error
to_int (obj _) = err type_error

-- `value in {...}`, of a set of texts: a list or a dictionary has no hash.
unfoldable pub member_of : Option Json → List String → Result Bool
member_of (some (str s)) set = ok (elem s set)
member_of (some (arr _)) set = err type_error
member_of (some (obj _)) set = err type_error
member_of _ set = ok false
