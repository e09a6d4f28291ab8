-- ===== src/Prelude/Words.antt =====
-- White space in texts, as `str.strip` and `str.split` see it.
use Prim.Native.Char.{Char, code}
use Prim.Native.Nat.{ℕ}
use Prim.Native.String.{String}
use mathlib.Core.Bool.{Bool, true, ◌&&◌, ◌||◌}
use mathlib.Core.List.{List, [], ◌∷◌}
use collective_capability_ru.Prelude.Tests.{leb, ◌==◌, if◌then◌else◌}
use collective_capability_ru.Prelude.Text.{◌<>◌, is_empty}

-- `str.isspace` of one character.
is_blank : ℕ → Bool
is_blank c =
    (leb 9 c && leb c 13)
    || (leb 28 c && leb c 32)
    || c == 0x85
    || c == 0xa0
    || c == 0x1680
    || (leb 0x2000 c && leb c 0x200a)
    || c == 0x2028
    || c == 0x2029
    || c == 0x202f
    || c == 0x205f
    || c == 0x3000

lstrip : String → String
unfolding is_blank
lstrip String.[] = String.[]
lstrip (String.◌∷◌ c s) = let rest = lstrip s in if is_blank (code c) then rest else String.◌∷◌ c s

rstrip : String → String
unfolding is_blank
rstrip String.[] = String.[]
rstrip (String.◌∷◌ c s) =
    let rest = rstrip s in
    if is_empty rest && is_blank (code c) then String.[] else String.◌∷◌ c rest

-- `s.strip()`
unfoldable pub strip : String → String
unfolding lstrip rstrip
strip s = rstrip (lstrip s)

starts_blank : String → Bool
unfolding is_blank
starts_blank String.[] = true
starts_blank (String.◌∷◌ c s) = is_blank (code c)

put_char : Char → List String → List String
put_char c [] = String.◌∷◌ c String.[] ∷ []
put_char c (w ∷ ws) = String.◌∷◌ c w ∷ ws

-- `s.split()`
unfoldable pub split_words : String → List String
unfolding is_blank starts_blank put_char
split_words String.[] = []
split_words (String.◌∷◌ c s) =
    let rest = split_words s in
    if is_blank (code c)
    then rest
    else if starts_blank s
    then String.◌∷◌ c String.[] ∷ rest
    else put_char c rest

-- `" ".join(words)`
unfoldable pub join_words : List String → String
join_words [] = ""
join_words (w ∷ []) = w
join_words (w ∷ v ∷ ws) = w <> (" " <> join_words (v ∷ ws))
