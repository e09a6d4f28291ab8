-- ===== src/Time.antt =====
-- time.py: lease durations and expiry.
pub mod Expiry
use collective_capability_ru.Prelude.{
  ℕ, zero, suc, ◌+◌, ◌-◌, ◌*◌, ◌<◌, String, Bool, true, false, ◌||◌, Option, none, some, List, [],
  ◌∷◌, ltb, leb, ◌==◌, if◌then◌else◌,
}
use collective_capability_ru.Prelude.Int.{ℤ, pos, negsuc, ◌+ℤ◌, leb_ℤ, ltb_ℤ}
use collective_capability_ru.Prelude.Text.{codes, is_empty, is_digit, decimal, ◌<>◌}
use collective_capability_ru.Result.{
  Result, ok, err, value_error, overflow_error, require, ◌>>=◌ as bind_result, ◌>>◌ as then_result,
}
use collective_capability_ru.Env.{Env, Moment}
use collective_capability_ru.Exec.{Exec, now_utc, lift, pure, ◌>>=◌}

abbrev is_space : ℕ → Bool
is_space c = c == 32 || c == 9 || c == 10 || c == 11 || c == 12 || c == 13

lstrip : List ℕ → List ℕ
lstrip [] = []
lstrip (c ∷ cs) = let rest = lstrip cs in if is_space c then rest else c ∷ cs

rstrip : List ℕ → List ℕ
rstrip [] = []
rstrip (c ∷ cs) = keep c (rstrip cs)
  where
    keep : ℕ → List ℕ → List ℕ
    keep c [] = if is_space c then [] else c ∷ []
    keep c (d ∷ ds) = c ∷ d ∷ ds

-- `(?P<value>\d+)` over ASCII digits: its number, and what stands behind it.
abbrev digits_from : ℕ → List ℕ → ℕ × List ℕ
digits_from n [] = (n, [])
digits_from n (c ∷ cs) =
    let rest = digits_from (n * 10 + (c - b'0')) cs in if is_digit c then rest else (n, c ∷ cs)

-- `(?P<unit>m|h|d)?$` and its factor in minutes.
abbrev unit_factor : List ℕ → Option ℕ
unit_factor [] = some 1
unit_factor (c ∷ []) =
    if c == b'm'
    then some 1
    else if c == b'h'
    then some 60
    else if c == b'd'
    then some 1440
    else none
unit_factor (c ∷ d ∷ cs) = none

abbrev scaled : ℕ × List ℕ → Option ℕ
scaled (n, rest) = elim (unit_factor rest) [ none ↦ none | some factor ↦ some (n * factor) ]

-- `_TTL_RE.match`, with the product of the two groups.
ttl_amount : List ℕ → Option ℕ
ttl_amount [] = none
ttl_amount (c ∷ cs) = if is_digit c then scaled (digits_from 0 (c ∷ cs)) else none

-- The values that a caller may pass.
pub data Ttl : Type 0 where
  text : String → Ttl
  minutes : ℤ → Ttl

at_least_one : ℕ → Result ℕ
at_least_one n = if ltb n 1 then err (value_error "ttl must be at least one minute") else ok n

-- The digits that a text starts with.
abbrev digit_count : List ℕ → ℕ
digit_count [] = 0
digit_count (c ∷ cs) = let rest = digit_count cs in if is_digit c then suc rest else 0

-- The limit of `int` on the digits of a text.
within_digits : ℕ → Result (Unit {0})
within_digits n = require (leb n 4300) (
    value_error (
      "Exceeds the limit (4300 digits) for integer string conversion: value has "
      <> (decimal n <> " digits; use sys.set_int_max_str_digits() to increase the limit")))

unfoldable pub parse_ttl_minutes : Ttl → Result ℕ
unfolding ttl_amount at_least_one within_digits lstrip rstrip
parse_ttl_minutes (minutes (pos n)) = at_least_one n
parse_ttl_minutes (minutes (negsuc n)) = err (value_error "ttl must be at least one minute")
parse_ttl_minutes (text value) =
    let stripped = rstrip (lstrip (codes value)) in
    elim (ttl_amount stripped) [
      | none ↦ err (value_error "ttl must use minutes, hours, or days, for example 30m, 2h, or 1d")
      | some n ↦ then_result (within_digits (digit_count stripped)) (at_least_one n)
    ]

-- The last instant of a Python `datetime`, in microseconds since year 1.
abbrev pub max_moment : ℕ
max_moment = 315537897599999999

-- `start + timedelta(minutes=ttl_minutes)`, which raises `OverflowError` out of range.
shift : ℕ → ℤ → Result ℕ
shift start (pos m) =
    let end = start + m * 60000000 in if leb end max_moment then ok end else err overflow_error
shift start (negsuc m) =
    let back = suc m * 60000000 in if leb back start then ok (start - back) else err overflow_error

after : Option ℕ → ℤ → Result (Option ℕ)
unfolding shift
after none ttl = ok none
after (some start) ttl = bind_result (shift start ttl) (λ e. ok (some e))

-- `True` without an expiration, else `expiration <= now_utc()`.
reached : Option ℕ → Exec Bool
unfolding now_utc
reached none = pure true
reached (some e) = do at ← now_utc; pure (leb e at)

module _ ⦃env : Env⦄ where
  -- `parse_timestamp` of a text: a naive time is read as UTC.
  unfoldable pub parse_timestamp : String → Result (Option ℕ)
  parse_timestamp value = if is_empty value then ok none else elim (env.from_iso value) [
    | none ↦ err (value_error "Invalid isoformat string")
    | some m ↦ ok (some m.micros)
  ]

  unfoldable pub expires_at : String → ℤ → Result (Option ℕ)
  unfolding parse_timestamp after
  expires_at leased_at ttl = bind_result (parse_timestamp leased_at) (λ start. after start ttl)

  -- `is_expired(leased_at, ttl_minutes)`: the clock is read only against an expiration.
  unfoldable pub is_expired : String → ℤ → Exec Bool
  unfolding expires_at reached
  is_expired leased_at ttl = do expiration ← lift (expires_at leased_at ttl); reached expiration
