-- ===== src/Floats.antt =====
-- Python's floats, as the code computes with them: the type and its operations are a parameter, since
-- their rounding is not the repository's.
use collective_capability_ru.Prelude.{ℕ, ◌≡◌, Bool, true, false, ◌||◌, if◌then◌else◌}
use collective_capability_ru.Result.{Result}
use collective_capability_ru.Json.{Json}

pub record Floats : Type 1 where
  pub Number : Type 0
  -- a literal without a fraction
  pub literal : ℕ → Number
  pub add : Number → Number → Number
  pub sub : Number → Number → Number
  pub mul : Number → Number → Number
  pub negate : Number → Number
  -- `x < y` and `x == y`
  pub lt : Number → Number → Bool
  pub eq : Number → Number → Bool
  -- `float(value)`, which may raise
  pub of_json : Json → Result Number
  -- the hours from one instant to another, in microseconds: a negative number where it is later
  pub hours_between : ℕ → ℕ → Number
  pub div : Number → Number → Number

module _ ⦃floats : Floats⦄ where
  -- `min(x, y)` and `max(x, y)` keep the first of two that are equal.
  abbrev pub least : floats.Number → floats.Number → floats.Number
  least x y = if floats.lt y x then y else x

  abbrev pub greatest : floats.Number → floats.Number → floats.Number
  greatest x y = if floats.lt x y then y else x

  -- `x >= y`
  abbrev pub at_least : floats.Number → floats.Number → Bool
  at_least x y = floats.lt y x || floats.eq x y

-- What the code relies on in comparisons: no number is both below and at least another one.
pub record IsComparison (floats : Floats) : Type 0 where
  pub asym : (x y : floats.Number) → floats.lt x y ≡ true → floats.lt y x ≡ false
  pub apart : (x y : floats.Number) → floats.eq x y ≡ true → floats.lt x y ≡ false
