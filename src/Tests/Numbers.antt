-- ===== src/Tests/Numbers.antt =====
-- Whole numbers in the place of floats, for the runs.
use collective_capability_ru.Prelude.{zero, suc, ◌+◌, ◌-◌, ◌*◌, ◌/◌, not, ◌&&◌}
use collective_capability_ru.Prelude.Int.{ℤ, pos, negsuc, ◌+ℤ◌, leb_ℤ, pos_part, neg_part, sub_ℕ}
use collective_capability_ru.Result.{Result, ok, err, value_error}
use collective_capability_ru.Json.{Json, int}
use collective_capability_ru.Floats.{Floats}

abbrev whole : Json → Result ℤ
whole (int n) = ok n
whole _ = err (value_error "could not convert to float")

abbrev pub opposite : ℤ → ℤ
opposite (pos zero) = pos 0
opposite (pos (suc n)) = negsuc n
opposite (negsuc n) = pos (suc n)

abbrev times : ℤ → ℤ → ℤ
times x y =
    sub_ℕ (pos_part x * pos_part y + neg_part x * neg_part y)
      (pos_part x * neg_part y + neg_part x * pos_part y)

instance abbrev pub test_floats : Floats
test_floats = record {
  Number = ℤ;
  literal = pos;
  add = ◌+ℤ◌;
  sub = λ x y. x +ℤ opposite y;
  mul = times;
  negate = opposite;
  lt = λ x y. not (leb_ℤ y x);
  eq = λ x y. leb_ℤ x y && leb_ℤ y x;
  of_json = whole;
  hours_between = λ a b. pos ((b - a) / 3600000000);
  div = λ x y. pos (pos_part x / pos_part y);
}
