-- ===== src/Control.antt =====
-- storage/control.py, with its SQLite backend: documents under a key, edited in one transaction.
use collective_capability_ru.Prelude.{
  String, Bool, true, false, Option, none, some, List, [], ◌∷◌, str_eq, if◌then◌else◌,
}
use collective_capability_ru.Prelude.Map.{string_eq, lookup, insert}
use collective_capability_ru.Result.{Result, ok, err, file_exists, file_not_found}
use collective_capability_ru.Json.{Dict, str, obj, end}
use collective_capability_ru.Env.{Env}
use collective_capability_ru.Exec.{
  World, Database, Exec, pure, lift, gets, now_iso, transaction, ◌>>=◌, ◌>>◌,
}
use collective_capability_ru.Ids.{stable_id}

abbrev pub documents : Option (List (String × Dict)) → List (String × Dict)
documents none = []
documents (some docs) = docs

-- `ControlStore.initialize`
unfoldable pub initialize : Exec (Unit {0})
initialize w = (ok tt, record w { db = record w.db { control = some (documents w.db.control) } })

-- `ControlStore.read`, with `ControlStore.exists`: nothing where the tables are missing.
unfoldable pub read : String → World → Option Dict
read key w = lookup key (documents w.db.control)

-- The document that an edit starts from: a new one must not be there, an old one must.
unfoldable pub start : String → Bool → Option Dict → Result Dict
start key true none = ok end
start key true (some d) = err (file_exists key)
start key false none = err (file_not_found key)
start key false (some d) = ok d

add_snapshot : Option Dict → String → Dict → Database → Database
add_snapshot none event_id d db = record db { control_outbox = insert event_id d db.control_outbox }
add_snapshot (some _) event_id d db = db

module _ ⦃env : Env⦄ where
  store_document : String → Dict → Exec (Unit {0})
  unfolding add_snapshot
  store_document key d w =
      let event_id = stable_id "event:control" (str key ∷ obj d ∷ []) in
      (
        ok tt,
        record w {
          db =
              add_snapshot (lookup event_id w.db.control_outbox) event_id d
                (record w.db { control = some (insert key d (documents w.db.control)) });
        },
      )

  -- Nothing is written where the digest has not changed.
  save_changed : String → Dict → Dict → Exec (Unit {0})
  unfolding store_document
  save_changed key before d =
      if str_eq (env.sha256 (obj d)) (env.sha256 (obj before))
      then pure tt
      else store_document key d

  initialize_if : Bool → Exec (Unit {0})
  initialize_if true = initialize
  initialize_if false = pure tt

  -- `ControlStore.edit`, of `edit_many` with one key. The body of the `with` block gives the new
  -- document and what it returns; an exception in it rolls the tables back.
  unfoldable pub edit : {A : Type 0} → String → Bool → (Dict → String → Result (Dict × A)) → Exec A
  unfolding initialize_if save_changed
  edit key create body = do
    initialize_if create
    transaction (do
      current ← now_iso
      found ← gets (read key)
      d ← lift (start key create found)
      (d', a) ← lift (body d current)
      save_changed key d d'
      pure a)
