-- ===== src/Json/Equality.antt =====
-- `==` of decoded JSON values, iteration over one, and attribute access on one.
use Prim.Native.String.{String}
use collective_capability_ru.Prelude.{
  ◌≡◌, eq_refl, arith, ℕ, suc, ◌+◌, ◌*◌, ◌^◌, Bool, true, false, ◌&&◌, ◌||◌, Option, none, some,
  List, [], ◌∷◌, str_eq, ◌==◌, if◌then◌else◌,
}
use collective_capability_ru.Prelude.Int.{ℤ, pos, negsuc, pos_part, neg_part}
use collective_capability_ru.Result.{Result, ok, err, type_error, attribute_error}
use collective_capability_ru.Json.{
  Float, Json, Items, Dict, finite, inf, null, bool, int, float, str, arr, obj, nil, cons, end,
  entry, elements,
}
use collective_capability_ru.Json.Fields.{get}

same_sign : Bool → Bool → Bool
same_sign true b = b
same_sign false b = if b then false else true

-- Exact comparison of two values mantissa * 2 ^ exponent.
float_eq : Float → Float → Bool
unfolding same_sign
float_eq (finite s m e) (finite t n f) =
    m * 2 ^ (pos_part e + neg_part f) == n * 2 ^ (pos_part f + neg_part e)
    && (m == 0 || same_sign s t)
float_eq (inf s) (inf t) = same_sign s t
float_eq _ _ = false

of_int : ℤ → Float
of_int (pos n) = finite false n (pos 0)
of_int (negsuc n) = finite true (suc n) (pos 0)

-- A boolean is a number too.
as_number : Json → Option Float
unfolding of_int
as_number (bool true) = some (finite false 1 (pos 0))
as_number (bool false) = some (finite false 0 (pos 0))
as_number (int n) = some (of_int n)
as_number (float x) = some x
as_number _ = none

numbers_eq : Option Float → Option Float → Bool
unfolding float_eq
numbers_eq (some x) (some y) = float_eq x y
numbers_eq _ _ = false

size : Dict → ℕ
size end = 0
size (entry k v d) = suc (size d)

unfoldable mutual
  unfolding numbers_eq as_number size

  pub json_eq : Json → Json → Bool
  json_eq null null = true
  json_eq (str s) (str t) = str_eq s t
  json_eq (arr xs) (arr ys) = items_eq xs ys
  json_eq (obj d) (obj e) = size d == size e && dict_in d e
  json_eq x y = numbers_eq (as_number x) (as_number y)

  items_eq : Items → Items → Bool
  items_eq nil nil = true
  items_eq (cons x xs) (cons y ys) = json_eq x y && items_eq xs ys
  items_eq _ _ = false

  dict_in : Dict → Dict → Bool
  dict_in end e = true
  dict_in (entry k v d) e =
      let rest = dict_in d e in elim (get k e) [ none ↦ false | some w ↦ json_eq v w && rest ]

-- `a == b` of two values read by `d.get`, where a missing one is `None`.
unfoldable pub opt_eq : Option Json → Option Json → Bool
unfolding json_eq
opt_eq none none = true
opt_eq none (some y) = json_eq null y
opt_eq (some x) none = json_eq x null
opt_eq (some x) (some y) = json_eq x y

characters : String → List Json
characters String.[] = []
characters (String.◌∷◌ c s) = str (String.◌∷◌ c String.[]) ∷ characters s

keys : Dict → List Json
keys end = []
keys (entry k v d) = str k ∷ keys d

-- `for item in value`.
unfoldable pub iterate : Json → Result (List Json)
unfolding characters keys
iterate (arr xs) = ok (elements xs)
iterate (obj d) = ok (keys d)
iterate (str s) = ok (characters s)
iterate _ = err type_error

-- The dictionary that `value.get` asks; other values have no such attribute.
unfoldable pub object_of : Json → Result Dict
object_of (obj d) = ok d
object_of _ = err attribute_error

pub json_eq_pos : (n : ℕ) → json_eq (int (pos n)) (int (pos n)) ≡ true
unfolding json_eq as_number of_int numbers_eq float_eq same_sign
json_eq_pos n = ground arith

pub json_eq_str : (s : String) → json_eq (str s) (str s) ≡ true
unfolding json_eq
json_eq_str s = eq_refl s
