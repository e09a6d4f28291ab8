-- ===== src/Ids.antt =====
-- ids.py, and `json_file_name` of io.py: deterministic identifiers, and what may name a file.
use Prim.Native.Char.{Char, code}
use collective_capability_ru.Prelude.{
  ℕ, ◌-◌, String, Bool, true, false, not, ◌&&◌, ◌||◌, List, [], ◌∷◌, length, any, all, leb, ◌==◌,
  elem, if◌then◌else◌,
}
use collective_capability_ru.Prelude.Text.{
  codes_eq, codes, ◌<>◌, is_empty, take_chars, is_digit, is_upper, is_lower,
}
use collective_capability_ru.Result.{Result, ok, value_error, require, ◌>>=◌, ◌>>◌}
use collective_capability_ru.Json.{Json, arr, items}
use collective_capability_ru.Env.{Env}

abbrev pub max_identifier_length : ℕ
max_identifier_length = 200

is_alphanumeric : ℕ → Bool
is_alphanumeric c = is_upper c || is_lower c || is_digit c

-- `[A-Za-z0-9._:-]`
is_identifier_char : ℕ → Bool
unfolding is_alphanumeric
is_identifier_char c = is_alphanumeric c || c == b'.' || c == b'_' || c == b':' || c == b'-'

-- `_IDENTIFIER_RE.fullmatch`
matches_identifier : List ℕ → Bool
unfolding is_identifier_char
matches_identifier [] = false
matches_identifier (c ∷ cs) = is_alphanumeric c && all is_identifier_char cs

-- `value.rstrip(". ") == value`: the last character is neither.
ends_portably : List ℕ → Bool
ends_portably [] = true
ends_portably (c ∷ []) = not (c == b'.' || c == 32)
ends_portably (c ∷ d ∷ cs) = ends_portably (d ∷ cs)

upper : ℕ → ℕ
upper c = if is_lower c then c - 32 else c

-- `value.split(".", 1)[0].upper()`
stem : List ℕ → List ℕ
unfolding upper
stem [] = []
stem (c ∷ cs) = let rest = stem cs in if c == b'.' then [] else upper c ∷ rest

-- `COM1` to `COM9` and `LPT1` to `LPT9`.
is_numbered_device : List ℕ → Bool
is_numbered_device (a ∷ b ∷ c ∷ d ∷ []) =
    (codes_eq (a ∷ b ∷ c ∷ []) (codes "COM") || codes_eq (a ∷ b ∷ c ∷ []) (codes "LPT"))
    && leb b'1' d
    && leb d b'9'
is_numbered_device _ = false

is_reserved : List ℕ → Bool
unfolding is_numbered_device
is_reserved s =
    any (λ name. codes_eq s (codes name)) ("CON" ∷ "PRN" ∷ "AUX" ∷ "NUL" ∷ [])
    || is_numbered_device s

-- `validate_identifier`, for a value that is a text.
unfoldable pub validate_identifier : String → String → Result String
unfolding matches_identifier ends_portably stem is_reserved
validate_identifier value field = do
  require (not (is_empty value)) (value_error (field <> " must be a non-empty string"))
  require (leb (length (codes value)) max_identifier_length)
      (value_error (field <> " exceeds 200 characters"))
  require (not (elem value ("." ∷ ".." ∷ [])) && matches_identifier (codes value))
      (value_error (field <> " contains non-portable or path-like characters"))
  require (ends_portably (codes value)) (value_error (field <> " may not end with a dot or space"))
  require (not (is_reserved (stem (codes value))))
      (value_error (field <> " is reserved on Windows"))
  ok value

underscore : Char → Char
underscore c = if code c == b':' then "_" else c

-- `validated.replace(":", "_")`
replace_colons : String → String
unfolding underscore
replace_colons String.[] = String.[]
replace_colons (String.◌∷◌ c s) = String.◌∷◌ (underscore c) (replace_colons s)

-- `json_file_name`
unfoldable pub json_file_name : String → Result String
unfolding validate_identifier replace_colons
json_file_name object_id = do
  validated ← validate_identifier object_id "object_id"
  ok (replace_colons validated <> ".json")

is_colon : Char → Bool
is_colon c = code c == b':'

-- `prefix.rstrip(":")`
rstrip_colons : String → String
unfolding is_colon
rstrip_colons String.[] = String.[]
rstrip_colons (String.◌∷◌ c s) =
    let rest = rstrip_colons s in
    if is_empty rest && is_colon c then String.[] else String.◌∷◌ c rest

module _ ⦃env : Env⦄ where
  -- `stable_id`, at its default length of 24 digits.
  unfoldable pub stable_id : String → List Json → String
  unfolding rstrip_colons
  stable_id prefix parts =
      let digest = take_chars 24 (env.sha256 (arr (items parts))) in
      rstrip_colons prefix <> (":" <> digest)
