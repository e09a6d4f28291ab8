-- ===== src/Exec.antt =====
-- The runtime root as a state: its files, its SQLite tables and the clock; and the code that runs
-- on it. A raise keeps the state that it was reached in, so that what a failed operation leaves
-- behind can be stated.
pub mod Laws
pub mod Steps
pub mod Directory
pub mod Columns
use collective_capability_ru.Prelude.{
  ℕ, ◌+◌, ◌/◌, String, Bool, true, false, Option, none, some, List, if◌then◌else◌,
}
use collective_capability_ru.Prelude.Map.{
  path_eq, FilePath, string_eq, file_path_eq, lookup, insert, erase,
}
use collective_capability_ru.Prelude.Int.{ℤ}
use collective_capability_ru.Result.{
  Error, Result, ok, err, value_error, file_exists, require as check,
}
use collective_capability_ru.Json.{Json, Dict, obj}
use collective_capability_ru.Env.{Env}

-- A row of the table `leases`; a column holds the JSON value that it was given.
pub record LeaseRow : Type 0 where
  pub leased_by : Option Json
  pub leased_at : Option Json
  pub ttl_minutes : Option Json
  pub fencing_token : ℤ
  pub heartbeat_at : Option Json
  pub idempotency_key : Option Json
  pub status : String
  pub updated_at : String

-- A row of the table `residuals`.
pub record ResidualRow : Type 0 where
  pub status : Json
  pub blocking : Bool
  pub kind : Option Json
  pub object_type : Option Json
  pub object_id : Option Json
  pub updated_at : String

-- A row of the table `outbox`, by its `event_id`.
pub record OutboxRow : Type 0 where
  pub event_type : String
  pub aggregate_id : String
  pub payload : Json
  pub created_at : String

-- A row of `operation_approvals`, from the time before the registry.
pub record ApprovalRow : Type 0 where
  pub digest : String
  pub use_count : ℤ
  pub max_uses : ℤ
  pub expires_at : Json

pub record Database : Type 0 where
  pub leases : List (String × LeaseRow)
  pub outbox : List (String × OutboxRow)
  pub residuals : List (String × ResidualRow)
  -- `ccr_control` and `ccr_control_outbox`, once the tables are there
  pub control : Option (List (String × Dict))
  pub control_outbox : List (String × Dict)
  pub approvals : List (String × ApprovalRow)

pub record World : Type 0 where
  pub files : List (FilePath × Json)
  pub db : Database
  -- lines of `blackboard/events.jsonl`
  pub events : List Json
  -- the microsecond that each reading of the clock returns, and the readings so far
  pub clock : ℕ → ℕ
  pub readings : ℕ

abbrev pub Exec : Type 0 → Type 0
Exec A = World → Result A × World

module _ {A : Type 0} where
  pub pure : A → Exec A
  pure a w = (ok a, w)

  pub raise : Error → Exec A
  raise e w = (err e, w)

  pub lift : Result A → Exec A
  lift r w = (r, w)

  -- A read of the state that changes nothing.
  pub gets : (World → A) → Exec A
  gets f w = (ok (f w), w)

module _ {A B : Type 0} where
  abbrev pub continue : Result A → (A → Exec B) → Exec B
  continue (ok a) f w = f a w
  continue (err e) f w = (err e, w)

  infixl 5 ◌>>=◌
  -- Opening this opens the four actions above.
  unfoldable pub ◌>>=◌ : Exec A → (A → Exec B) → Exec B
  unfolding pure raise lift gets
  ◌>>=◌ m f w = let (r, w') = m w in continue r f w'

infixl 5 ◌>>◌
abbrev pub ◌>>◌ : {B : Type 0} → Exec (Unit {0}) → Exec B → Exec B
m >> k = m >>= λ _. k

-- `if not test: raise e`.
abbrev pub require : Bool → Error → Exec (Unit {0})
require test e = lift (check test e)

-- One reading of the clock, in microseconds.
unfoldable pub now_utc : Exec ℕ
now_utc w = (ok (w.clock w.readings), record w { readings = w.readings + 1 })

module _ ⦃env : Env⦄ where
  -- `now_iso`: the clock with the microseconds dropped.
  unfoldable pub now_iso : Exec String
  now_iso w = (ok (env.iso (w.clock w.readings / 1000000)), record w { readings = w.readings + 1 })

-- `path.exists()` and `read_json(path)`, with the caller's own error for a missing file.
unfoldable pub exists : FilePath → World → Bool
exists p w = elim (lookup p w.files) [ none ↦ false | some _ ↦ true ]

unfoldable pub read_file : FilePath → Error → Exec Json
read_file p missing w = elim (lookup p w.files) [ none ↦ (err missing, w) | some v ↦ (ok v, w) ]

-- `if not isinstance(data, dict): raise ValueError(message)`.
unfoldable pub to_dict : Json → String → Result Dict
to_dict (obj d) message = ok d
to_dict _ message = err (value_error message)

abbrev pub require_dict : Json → String → Exec Dict
require_dict v message = lift (to_dict v message)

-- `write_json_atomic(path, value)`.
unfoldable pub write_file : FilePath → Json → Exec (Unit {0})
write_file p v w = (ok tt, record w { files = insert p v w.files })

-- `write_json_atomic(path, value, overwrite=False)`.
unfoldable pub write_new_file : FilePath → String → Json → Exec (Unit {0})
unfolding exists write_file
write_new_file p name v w = if exists p w then (err (file_exists name), w) else write_file p v w

-- `path.unlink()`, of a path that is there.
unfoldable pub unlink : FilePath → Exec (Unit {0})
unlink p w = (ok tt, record w { files = erase p w.files })

-- `immediate_transaction`: an exception takes the tables back to where they were, and nothing else.
abbrev pub finish : {A : Type 0} → Database → Result A × World → Result A × World
finish before (ok a, w) = (ok a, w)
finish before (err e, w) = (err e, record w { db = before })

unfoldable pub transaction : {A : Type 0} → Exec A → Exec A
transaction m w = finish w.db (m w)

-- `INSERT OR IGNORE INTO outbox`
unfoldable pub insert_outbox : String → OutboxRow → Exec (Unit {0})
insert_outbox id row w = elim (lookup id w.db.outbox) [
  | none ↦ (ok tt, record w { db = record w.db { outbox = insert id row w.db.outbox } })
  | some _ ↦ (ok tt, w)
]

-- `old_path != destination and old_path.exists()`, and the `unlink` that it guards.
unfoldable pub unlink_old : FilePath → FilePath → Exec (Unit {0})
unfolding exists unlink
unlink_old old destination w =
    if path_eq old destination then pure tt w else if exists old w then unlink old w else pure tt w
