-- ===== src/Exec/Columns.antt =====
-- What `sqlite3` binds to a parameter of a statement: an integer of 64 bits at most, and no list or
-- dictionary.
use collective_capability_ru.Prelude.{
  ◌^◌, ◌≡◌, Bool, true, false, Option, some, List, [], ◌∷◌, ltb, arith,
}
use collective_capability_ru.Prelude.Int.{ℤ, pos, negsuc, ◌≤ℤ◌}
use collective_capability_ru.Result.{
  Result, ok, Error, overflow_error, binding_error, require, ◌>>◌,
}
use collective_capability_ru.Json.{Json, int, arr, obj}

-- From -2^63 to 2^63 - 1.
abbrev pub is_int64 : ℤ → Bool
is_int64 (pos n) = ltb n (2 ^ 63)
is_int64 (negsuc n) = ltb n (2 ^ 63)

abbrev pub bindable : Option Json → Bool
bindable (some (int n)) = is_int64 n
bindable (some (arr _)) = false
bindable (some (obj _)) = false
bindable _ = true

abbrev pub bind_error : Option Json → Error
bind_error (some (int n)) = overflow_error
bind_error _ = binding_error

-- The parameters are bound in their order.
unfoldable pub bind_all : List (Option Json) → Result (Unit {0})
bind_all [] = ok tt
bind_all (v ∷ vs) = require (bindable v) (bind_error v) >> bind_all vs

-- Whatever lies between two integers of 64 bits is one.
pub is_int64_between :
    (s t u : ℤ) → is_int64 s ≡ true → is_int64 u ≡ true → s ≤ℤ t → t ≤ℤ u → is_int64 t ≡ true
is_int64_between s (pos n) (pos m) a b h k = ground arith
is_int64_between s (pos n) (negsuc m) a b h k = ground arith
is_int64_between (pos l) (negsuc n) u a b h k = ground arith
is_int64_between (negsuc l) (negsuc n) u a b h k = ground arith
