-- ===== src/Env.antt =====
-- What the program takes from outside its own source: the SHA-256 of canonical JSON, Python's
-- printed form of containers and floats, ISO-8601 text of instants, case folding, where the runtime
-- root lies, and the JSON Schema checker.
use collective_capability_ru.Prelude.{
  ℕ, suc, ◌*◌, String, Bool, true, false, ◌≡◌, Option, some, List, [], ◌∷◌,
}
use collective_capability_ru.Prelude.Int.{pos, negsuc}
use collective_capability_ru.Prelude.Text.{decimal, is_empty, ◌<>◌}
use collective_capability_ru.Json.{Json, null, bool, int, str}

-- An aware `datetime`, or a naive one read as UTC: microseconds since year 1.
pub record Moment : Type 0 where
  pub micros : ℕ
  pub aware : Bool

pub record Env : Type 0 where
  -- hex digest of the canonical JSON bytes (`hashlib.sha256`, `json.dumps`)
  pub sha256 : Json → String
  -- `str()` of a float, a list or a dict
  pub repr : Json → String
  -- `isoformat()` of a UTC second, with `Z` for its offset
  pub iso : ℕ → String
  -- `datetime.fromisoformat`, with `Z` read as an offset; `none` where it raises `ValueError`
  pub from_iso : String → Option Moment
  pub from_iso-iso :
      (s : ℕ) → from_iso (iso s) ≡ some (record { micros = s * 1000000; aware = true })
  pub iso-not_empty : (s : ℕ) → is_empty (iso s) ≡ false
  -- `str.casefold`, by the tables of Unicode
  pub casefold : String → String
  -- `str()` of the runtime root's path
  pub root : String
  -- where a path of these parts, joined below the root, lies once it is resolved; `none` outside
  -- the root, where `require_path_within_root` raises
  pub resolve : List String → Option (List String)
  -- messages of the JSON Schema validator for a kind of record; empty when it accepts
  pub schema_errors : String → Json → List String

abbrev segments_text : List String → String
segments_text [] = ""
segments_text (s ∷ p) = "/" <> (s <> segments_text p)

module _ ⦃env : Env⦄ where
  -- `str(path)`, of a path below the root.
  unfoldable pub path_text : List String → String
  path_text p = env.root <> segments_text p

  -- `str(value)`.
  unfoldable pub to_text : Json → String
  to_text null = "None"
  to_text (bool true) = "True"
  to_text (bool false) = "False"
  to_text (int (pos n)) = decimal n
  to_text (int (negsuc n)) = "-" <> decimal (suc n)
  to_text (str s) = s
  to_text v = env.repr v
