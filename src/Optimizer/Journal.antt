-- ===== src/Optimizer/Journal.antt =====
-- optimizer/growth_ledger.py: `append`, and the check of the digest chain in `replay`.
use collective_capability_ru.Prelude.{
  ℕ, ◌+◌, String, none, some, List, [], ◌∷◌, ◌++◌, length, str_eq, if◌then◌else◌,
}
use collective_capability_ru.Prelude.Int.{pos}
use collective_capability_ru.Result.{Result, ok, err, value_error, key_error, require, ◌>>=◌, ◌>>◌}
use collective_capability_ru.Json.{Json, Dict, null, int, str, obj, end, entry, dict}
use collective_capability_ru.Json.Equality.{json_eq}
use collective_capability_ru.Json.Fields.{get, set}
use collective_capability_ru.Env.{Env}

-- `{k: v for k, v in event.items() if k != "digest"}`
unfoldable pub unsigned : Dict → Dict
unsigned end = end
unsigned (entry k v d) = let rest = unsigned d in if str_eq k "digest" then rest else entry k v rest

-- `event[key]`
unfoldable pub field : String → Dict → Result Json
field key d = elim (get key d) [ none ↦ err (key_error key) | some v ↦ ok v ]

-- `journal[-1]["digest"] if journal else None`
unfoldable pub last_digest : List Dict → Result Json
unfolding field
last_digest [] = ok null
last_digest (event ∷ []) = field "digest" event
last_digest (event ∷ later ∷ journal) = last_digest (later ∷ journal)

module _ ⦃env : Env⦄ where
  -- A row without its digest.
  abbrev pub unsigned_row : ℕ → Json → String → Json → String → Json → Dict
  unsigned_row sequence previous kind payload current revision = dict (
      ("sequence", int (pos sequence))
      ∷ ("previous", previous)
      ∷ ("kind", str kind)
      ∷ ("payload", payload)
      ∷ ("recorded_at", str current)
      ∷ ("policy_revision", revision)
      ∷ [])

  -- `row["digest"] = sha256_json(row)`
  abbrev pub signed : Dict → Dict
  signed row = set "digest" (str (env.sha256 (obj row))) row

  -- `append`, of the journal and the revision of a run.
  unfoldable pub append : List Dict → Json → String → Json → String → Result (List Dict)
  unfolding last_digest
  append journal revision kind payload current = do
    previous ← last_digest journal
    ok (
        journal
        ++ (signed (unsigned_row (length journal) previous kind payload current revision) ∷ []))

  -- The three tests of one event, each before the next field is read.
  unfoldable pub check_event : ℕ → Json → Dict → Result Json
  unfolding field unsigned
  check_event index previous event = do
    sequence ← field "sequence" event
    require (json_eq sequence (int (pos index))) (value_error "growth journal digest chain invalid")
    before ← field "previous" event
    require (json_eq before previous) (value_error "growth journal digest chain invalid")
    digest ← field "digest" event
    require (json_eq (str (env.sha256 (obj (unsigned event)))) digest)
        (value_error "growth journal digest chain invalid")
    ok digest

  -- The chain over the events, from an index and the digest before it.
  unfoldable pub check_chain : ℕ → Json → List Dict → Result Json
  unfolding check_event
  check_chain index previous [] = ok previous
  check_chain index previous (event ∷ events) = do
    digest ← check_event index previous event
    check_chain (index + 1) digest events
