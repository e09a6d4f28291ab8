-- ===== src/Optimizer/Profile.antt =====
-- optimizer/growth_model.py: the parts of `normalize` that check receivers, assets and
-- verifier stages. Values whose shape the schema has excluded raise where a method is missing.
use collective_capability_ru.Prelude.{
  ℕ, String, Bool, true, false, not, ◌&&◌, none, some, List, [], ◌∷◌, map, length, leb, str_eq,
  elem, if◌then◌else◌,
}
use collective_capability_ru.Prelude.Int.{ℤ, pos}
use collective_capability_ru.Prelude.Text.{◌<>◌}
use collective_capability_ru.Result.{
  Result, ok, err, value_error, attribute_error, require, ◌>>=◌, ◌>>◌,
}
use collective_capability_ru.Json.{Json, Dict, null, bool, str, obj, end, entry}
use collective_capability_ru.Json.Equality.{object_of}
use collective_capability_ru.Json.Python.{member_of}
use collective_capability_ru.Env.{Env}
use collective_capability_ru.Ids.{validate_identifier}
use collective_capability_ru.Optimizer.Journal.{field}
use collective_capability_ru.Optimizer.Lineage.{Parents, acyclic, cyclic, unfinished, check_lineage}
use collective_capability_ru.Optimizer.Values.{
  keys_of, subset, closed, largest, integer, text, digest, unique,
}

abbrev pub Checked : Type 0
Checked = Result (Unit {0})

-- `for key, value in d.items()`
unfoldable pub each : (String → Json → Checked) → Dict → Checked
each f end = ok tt
each f (entry k v d) = do f k v; each f d

unfoldable pub each_of : (String → Checked) → List String → Checked
each_of f [] = ok tt
each_of f (s ∷ ss) = do f s; each_of f ss

-- A check whose value is not used.
abbrev pub passes : {A : Type 0} → Result A → Checked
passes r = r >>= λ _. ok tt

-- The parts of `d[key]` that a check wants.
abbrev pub checked_at : {A : Type 0} → (Json → Result A) → String → Dict → Checked
checked_at f key d = field key d >>= λ v. passes (f v)

unfoldable pub dict_field : String → Dict → Result Dict
unfolding field object_of
dict_field key d = do v ← field key d; object_of v

-- `validate_identifier`, of any value
unfoldable pub identifier : String → Json → Result String
unfolding validate_identifier
identifier name (str s) = validate_identifier s name
identifier name _ = err (value_error (name <> " must be a non-empty string"))

-- `if value not in names: raise ValueError(message)`
abbrev pub one_of : List String → String → Json → Checked
one_of names message v = member_of (some v) names >>= λ known. require known (value_error message)

-- `type(value) is bool`
abbrev pub boolean : String → Json → Checked
boolean message (bool b) = ok tt
boolean message _ = err (value_error message)

-- `1 <= len(value) <= limit`, of a dictionary
abbrev pub declared : ℕ → ℕ → String → Json → Result Dict
declared least most message (obj d) = do
  require (leb least (length (keys_of d)) && leb (length (keys_of d)) most) (value_error message)
  ok d
declared least most message _ = err (value_error message)

-- `any(value.values())`, of integers
abbrev pub is_zero : ℤ → Bool
is_zero (pos ℕ.zero) = true
is_zero _ = false

-- The declaration of one receiver.
unfoldable pub check_receiver : String → Json → Checked
unfolding text closed field identifier digest
check_receiver receiver spec = do
  _ ← text (str receiver)
  d ← closed spec (
      "mission_id" ∷ "context_sha256" ∷ "domain" ∷ "protocol" ∷ "evaluator" ∷ "quality"
      ∷ "cross_mission_allowed" ∷ [])
  checked_at (identifier "receiver mission") "mission_id" d
  checked_at digest "context_sha256" d
  checked_at text "domain" d
  checked_at text "protocol" d
  checked_at text "evaluator" d
  checked_at text "quality" d
  checked_at (boolean "cross mission grant must be boolean") "cross_mission_allowed" d

-- `if parent not in assets or parent == asset`
abbrev pub known_parent : List String → String → String → Checked
known_parent assets asset parent =
    require (elem parent assets && not (str_eq parent asset)) (value_error "unknown or self parent")

abbrev pub asset_names : Parents → List String
asset_names table = map (λ a. a.0) table

module _ ⦃env : Env⦄ where
  -- `timestamp`, in microseconds
  unfoldable pub timestamp : Json → Result ℕ
  timestamp (str s) = elim (env.from_iso s) [
    | none ↦ err (value_error "Invalid isoformat string")
    | some m ↦
        (if m.aware then ok m.micros else err (value_error "timestamps must include timezone"))
  ]
  timestamp _ = err attribute_error

  -- The declaration of one asset; returns its parents.
  unfoldable pub check_asset : List String → List String → String → Json → Result (List String)
  unfolding digest closed field text identifier unique subset each_of timestamp
  check_asset receivers assets asset spec = do
    _ ← digest (str asset)
    d ← closed spec (
        "version" ∷ "source_mission" ∷ "receivers" ∷ "parents" ∷ "external_inputs" ∷ "expires_at"
        ∷ [])
    checked_at text "version" d
    checked_at (identifier "asset mission") "source_mission" d
    scope ← field "receivers" d
    named ← unique 128 scope
    require (subset named receivers) (value_error "unknown receiver scope")
    listed ← field "parents" d
    parents ← unique 128 listed
    each_of (known_parent assets asset) parents
    checked_at (unique 128) "external_inputs" d
    checked_at timestamp "expires_at" d
    ok parents

  -- The loop over the assets, which gathers their parents.
  unfoldable pub check_assets : List String → List String → Dict → Result Parents
  unfolding check_asset
  check_assets receivers assets end = ok []
  check_assets receivers assets (entry asset spec d) = do
    parents ← check_asset receivers assets asset spec
    rest ← check_assets receivers assets d
    ok ((asset, parents) ∷ rest)

  -- The loop over the lineage, after the others.
  unfoldable pub require_acyclic : Parents → List String → Checked
  unfolding check_lineage
  require_acyclic table assets = elim (check_lineage table assets) [
    | acyclic ↦ ok tt
    | cyclic ↦ err (value_error "cyclic lineage")
    | unfinished ↦ err (value_error "cyclic lineage")
  ]

  -- `assets`: the declarations and their lineage.
  unfoldable pub check_lineages : List String → Json → Result Parents
  unfolding check_assets require_acyclic
  check_lineages receivers assets = do
    d ← declared 0 64 "bounded asset declarations required" assets
    table ← check_assets receivers (keys_of d) d
    require_acyclic table (keys_of d)
    ok table

  abbrev pub service_rate : Json → Checked
  service_rate null = ok tt
  service_rate v = passes (integer (pos 0) largest v)

  -- The declaration of one verifier stage.
  unfoldable pub check_stage : String → Json → Checked
  unfolding closed field unique text integer timestamp member_of
  check_stage name stage = do
    d ← closed stage (
        "domains" ∷ "quality" ∷ "service_units_per_second" ∷ "fresh_until" ∷ "independence_groups"
        ∷ "exposure_groups" ∷ "dependence" ∷ [])
    checked_at (unique 128) "domains" d
    checked_at text "quality" d
    checked_at service_rate "service_units_per_second" d
    checked_at timestamp "fresh_until" d
    checked_at (unique 128) "independence_groups" d
    checked_at (unique 128) "exposure_groups" d
    checked_at
        (one_of ("unknown" ∷ "shared" ∷ "declared_independent" ∷ [])
          "dependence must remain explicit")
        "dependence" d
