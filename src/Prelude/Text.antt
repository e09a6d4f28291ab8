-- ===== src/Prelude/Text.antt =====
-- Texts, walked character by character.
use Prim.Native.Char.{code}
use Prim.Native.Nat.{◌+◌, ℕ, zero, suc, ◌/◌, ◌%◌}
use Prim.Native.String.{String, ◌++◌ as append}
use mathlib.Core.Bool.{Bool, true, false, ◌&&◌, ◌||◌}
use mathlib.Core.List.{List, [], ◌∷◌}
use collective_capability_ru.Prelude.Tests.{ltb, leb, ◌==◌, if◌then◌else◌}

-- The code points of a text.
abbrev pub codes : String → List ℕ
codes String.[] = []
codes (String.◌∷◌ c s) = code c ∷ codes s

abbrev pub is_empty : String → Bool
is_empty String.[] = true
is_empty (String.◌∷◌ c s) = false

infixr 65 ◌<>◌
-- The text of one after that of the other.
abbrev pub ◌<>◌ : String → String → String
s <> t = append s t

-- The first characters of a text.
abbrev pub take_chars : ℕ → String → String
take_chars zero s = String.[]
take_chars (suc n) String.[] = String.[]
take_chars (suc n) (String.◌∷◌ c s) = String.◌∷◌ c (take_chars n s)

abbrev pub is_digit : ℕ → Bool
is_digit c = leb b'0' c && leb c b'9'

abbrev pub is_upper : ℕ → Bool
is_upper c = leb b'A' c && leb c b'Z'

abbrev pub is_lower : ℕ → Bool
is_lower c = leb b'a' c && leb c b'z'

-- The digits of a number, the last one first, on fuel.
decimal_rev : ℕ → ℕ → List ℕ
decimal_rev zero n = []
decimal_rev (suc f) n =
    let rest = decimal_rev f (n / 10) in if ltb n 10 then n ∷ [] else n % 10 ∷ rest

digit_text : ℕ → String
digit_text d =
    if d == 0
    then "0"
    else if d == 1
    then "1"
    else if d == 2
    then "2"
    else if d == 3
    then "3"
    else if d == 4
    then "4"
    else if d == 5
    then "5"
    else if d == 6
    then "6"
    else if d == 7
    then "7"
    else if d == 8
    then "8"
    else "9"

spell : List ℕ → String → String
spell [] acc = acc
spell (d ∷ ds) acc = spell ds (digit_text d <> acc)

-- `str(n)`. A number has no more digits than its value plus one.
unfoldable pub decimal : ℕ → String
unfolding decimal_rev digit_text spell
decimal n = spell (decimal_rev (suc n) n) ""

abbrev pub codes_eq : List ℕ → List ℕ → Bool
codes_eq [] [] = true
codes_eq [] (d ∷ ds) = false
codes_eq (c ∷ cs) [] = false
codes_eq (c ∷ cs) (d ∷ ds) = c == d && codes_eq cs ds

abbrev pub lower : ℕ → ℕ
lower c = if is_upper c then c + 32 else c

-- The code points of `s.lower()`, over ASCII letters.
abbrev pub lower_codes : String → List ℕ
lower_codes String.[] = []
lower_codes (String.◌∷◌ c s) = lower (code c) ∷ lower_codes s

abbrev pub starts : List ℕ → List ℕ → Bool
starts [] cs = true
starts (p ∷ ps) [] = false
starts (p ∷ ps) (c ∷ cs) = p == c && starts ps cs

-- `part in text`, for a part that is not empty.
unfoldable pub has_part : List ℕ → List ℕ → Bool
has_part part [] = false
has_part part (c ∷ cs) = starts part (c ∷ cs) || has_part part cs

-- `text.endswith(part)`
unfoldable pub ends_with : List ℕ → List ℕ → Bool
ends_with part [] = codes_eq part []
ends_with part (c ∷ cs) = codes_eq part (c ∷ cs) || ends_with part cs
