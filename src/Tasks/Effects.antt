-- ===== src/Tasks/Effects.antt =====
-- The effects of the rows that a transition writes, as steps of a block over a tracked task.
use collective_capability_ru.Prelude.{
  String, ◌≡◌, refl, sym, subst, ◌∙◌, true, ◌&&◌, Option, some, List, [], ◌∷◌, inl, inr,
  Option-cases, arith, eq_refl, elem,
}
use collective_capability_ru.Prelude.Int.{ℤ, pos, ◌+ℤ◌}
use collective_capability_ru.Prelude.Map.{
  FilePath, string_eq, file_path_eq, lookup, insert, lookup-insert,
}
use collective_capability_ru.Result.{Error, Result, ok, err, overflow_error, require, ◌>>◌ as ◌>>ᵣ◌}
use collective_capability_ru.Json.{Json, Dict, int, str}
use collective_capability_ru.Json.Fields.{get}
use collective_capability_ru.Env.{Env}
use collective_capability_ru.Exec.{
  unlink_old, insert_outbox, World, Database, LeaseRow, OutboxRow, pure, ◌>>◌,
}
use collective_capability_ru.Exec.Laws.{step, Ends, Ends-pure, Ends-bind, Ends-lift, step_lift}
use collective_capability_ru.Exec.Steps.{tick, step_now, written}
use collective_capability_ru.Ids.{json_file_name}
use collective_capability_ru.Tasks.{
  task_file, task_path, task_key, token_of, lease_of, next_fencing_token, insert_lease, store_lease,
  record_lease, upsert_lease, record_outbox, statuses,
}
use collective_capability_ru.Tasks.Machine.{Stage}
use collective_capability_ru.Tasks.Queue.{load_task}
use collective_capability_ru.Exec.{Exec, read_file, to_dict, ◌>>=◌}
use collective_capability_ru.Exec.Steps.{exists-some, removed}
use collective_capability_ru.Tasks.Tracking.{find_in-Holds, Holds-self}
use collective_capability_ru.Prelude.{false}
use collective_capability_ru.Prelude.Map.{path_eq}
use collective_capability_ru.Tasks.Tracking.{row_token, Holds, IsTask, Tracks, IsStorable}
use collective_capability_ru.Exec.Columns.{bind_all, bindable, is_int64}

abbrev pub Files : Type 0
Files = List (FilePath × Json)

-- The files are as they were, and the row of `id` holds the token `t`.
pub record RowWritten (id : String) (t : ℤ) (files : Files) (w' : World) : Type 0 where
  pub kept : w'.files ≡ files
  pub row : row_token id w'.db ≡ t

-- Only the outbox may have grown.
pub record OutboxOnly (files : Files) (leases : List (String × LeaseRow)) (w' : World)
    : Type 0 where
  pub kept : w'.files ≡ files
  pub same_leases : w'.db.leases ≡ leases

pub next_fencing_token-row :
    (id : String) (db : Database) → next_fencing_token id db ≡ row_token id db +ℤ pos 1
unfolding next_fencing_token
next_fencing_token-row id db = ground arith

pub task_path_named :
    (id name : String)
    → json_file_name id ≡ ok name
    → (status : String) → task_path id status ≡ ok (task_file status name)
unfolding task_path
task_path_named id name named status = rw named

row_token_inserted :
    (id : String) (row : LeaseRow) (db : Database)
    → row_token id (record db { leases = insert id row db.leases }) ≡ row.fencing_token
row_token_inserted id row db = ground (arith, lookup-insert id id row db.leases, eq_refl id)

unbound : {r : Result (Unit {0})} {a : Unit {0}} {e : Error} → r ≡ ok a → r ≡ err e → ⊥
unbound h k = cc

err_inj : {e e' : Error} → ◌≡◌ {A = Result (Unit {0})} (err e) (err e') → e ≡ e'
err_inj h = cc

too_large :
    (n t : ℤ) (rest : Result (Unit {0}))
    → (is_int64 n && is_int64 t) ≡ false
    → (require (is_int64 n) overflow_error >>ᵣ (require (is_int64 t) overflow_error >>ᵣ rest))
      ≡ err overflow_error
too_large n t rest large = ground arith

-- The parameters of the row, in their order.
abbrev columns : LeaseRow → List (Option Json)
columns row =
    row.leased_by
    ∷ row.leased_at
    ∷ row.ttl_minutes
    ∷ some (int row.fencing_token)
    ∷ row.heartbeat_at
    ∷ row.idempotency_key
    ∷ []

module _ {Q : Error → World → Type 0} where
  store_lease-Ends :
      (id : String) (row : LeaseRow) (w : World)
      → Ends (λ _ w'. RowWritten id row.fencing_token w.files w') Q (store_lease id row w)
  unfolding store_lease
  store_lease-Ends id row w = record {
    outcome = record { kept = refl; row = row_token_inserted id row w.db };
  }

  insert_lease-Ends :
      (id : String) (row : LeaseRow) (w : World)
      → bind_all (columns row) ≡ ok tt
      → Ends (λ _ w'. RowWritten id row.fencing_token w.files w') Q (insert_lease id row w)
  unfolding insert_lease
  insert_lease-Ends id row w binds = step_lift _ _ binds (store_lease-Ends id row w)

  -- A row that cannot be bound is not stored.
  insert_lease-Fails :
      {P : Unit {0} → World → Type 0} (id : String) (row : LeaseRow) (w : World) (e : Error)
      → bind_all (columns row) ≡ err e
      → Q e w
      → Ends P Q (insert_lease id row w)
  unfolding insert_lease
  insert_lease-Fails id row w e fails q =
      Ends-lift _ _ w (λ a binds. absurd (unbound binds fails))
        (λ e' fails'. subst (λ x. Q x w) (err_inj (sym fails ∙ fails')) q)

  insert_outbox-Ends :
      (id : String) (row : OutboxRow) (w : World)
      → Ends (λ _ w'. OutboxOnly w.files w.db.leases w') Q (insert_outbox id row w)
  unfolding insert_outbox
  insert_outbox-Ends id row w = elim (Option-cases (lookup id w.db.outbox)) [
    | inl e ↦
        rw (e, insert_outbox) (record { outcome = record { kept = refl; same_leases = refl } })
    | inr (r, e) ↦
        rw (e, insert_outbox) (record { outcome = record { kept = refl; same_leases = refl } })
  ]

module _ ⦃env : Env⦄ {Q : Error → World → Type 0} where
  pub record_lease-Ends :
      (id : String) (lease : Dict) (status : String) (t : ℤ) (w : World)
      → token_of lease ≡ ok t
      → IsStorable lease t
      → Ends (λ _ w'. RowWritten id t w.files w') Q (record_lease id lease status w)
  unfolding record_lease bind_all
  record_lease-Ends id lease status t w held s = step_lift _ _ held (
      step_now _ _
        (insert_lease-Ends id _ (tick w) (rw (s.by, s.at, s.minutes, s.small, s.beat, s.key) refl)))

  -- A number of minutes, or a token, of more than 64 bits raises, and the row is as it was.
  pub record_lease-Overflows :
      {P : Unit {0} → World → Type 0} (id : String) (lease : Dict) (status : String) (n t : ℤ)
      (w : World)
      → token_of lease ≡ ok t
      → bindable (get "leased_by" lease) ≡ true
      → bindable (get "leased_at" lease) ≡ true
      → get "ttl_minutes" lease ≡ some (int n)
      → (is_int64 n && is_int64 t) ≡ false
      → Q overflow_error (tick w)
      → Ends P Q (record_lease id lease status w)
  unfolding record_lease bind_all
  record_lease-Overflows id lease status n t w held by at ttl large q = step_lift _ _ held (
      step_now _ _ (
        insert_lease-Fails id _ (tick w) overflow_error (rw (by, at, ttl) (too_large n t _ large))
          q))

  pub record_outbox-Ends :
      (event id : String) (task : Dict) (w : World)
      → Ends (λ _ w'. OutboxOnly w.files w.db.leases w') Q (record_outbox event id task w)
  unfolding record_outbox
  record_outbox-Ends event id task w = step_now _ _ (insert_outbox-Ends _ _ (tick w))

  pub upsert_lease-Ends :
      (id : String) (task : Dict) (status : String) (t : ℤ) (w : World)
      → get "task_id" task ≡ some (str id)
      → token_of (lease_of task) ≡ ok t
      → IsStorable (lease_of task) t
      → Ends (λ task' w'. RowWritten id t w.files w') Q (upsert_lease task status w)
  unfolding upsert_lease task_key
  upsert_lease-Ends id task status t w key held storable = step_lift _ _ (rw key refl) (
      Ends-bind _ _ _ (record_lease-Ends id (lease_of task) status t w held storable)
        (λ _ w' done. Ends-pure _ _ done))

  -- The same of the row of a task.
  pub upsert_lease-Overflows :
      {P : Dict → World → Type 0} (id : String) (task : Dict) (status : String) (n t : ℤ)
      (w : World)
      → get "task_id" task ≡ some (str id)
      → token_of (lease_of task) ≡ ok t
      → bindable (get "leased_by" (lease_of task)) ≡ true
      → bindable (get "leased_at" (lease_of task)) ≡ true
      → get "ttl_minutes" (lease_of task) ≡ some (int n)
      → (is_int64 n && is_int64 t) ≡ false
      → Q overflow_error (tick w)
      → Ends P Q (upsert_lease task status w)
  unfolding upsert_lease task_key
  upsert_lease-Overflows id task status n t w key held by at ttl large q =
      step_lift _ _ (rw key refl) (
        Ends-bind _ _ _
          (record_lease-Overflows {P = λ _ _. ⊥} id (lease_of task) status n t w held by at ttl
            large q)
          (λ _ _ never. elim never [ ]))

-- The files of a transition, its row and its outbox entry make a tracked task.
pub tracked :
    (id name : String) (b : Stage) (task : Dict) (files : Files) (w w' : World)
    → Holds name b.status task files
    → elem b.status statuses ≡ true
    → IsTask id b.holder b.token task
    → RowWritten id b.token files w
    → OutboxOnly w.files w.db.leases w'
    → Tracks id name b w'
tracked id name b task files w w' holds known fields written sent = record {
  task = task;
  holds = rw (sent.kept, written.kept) holds;
  known = known;
  fields = fields;
  row = rw sent.same_leases written.row;
}

-- How `lease.py` ends its transitions: the row, the outbox, the reply.
module _ ⦃env : Env⦄ {Q : Error → World → Type 0} {R : Type 0} where
  pub rows_end :
      (id name : String) (b : Stage) (task lease : Dict) (status event : String) (r : R) (w : World)
      → Holds name b.status task w.files
      → elem b.status statuses ≡ true
      → IsTask id b.holder b.token task
      → token_of lease ≡ ok b.token
      → IsStorable lease b.token
      → Ends
          (λ r' w'. (r' ≡ r) × Holds name b.status task w'.files × Tracks id name b w')
          Q
          ((record_lease id lease status >> (record_outbox event id task >> pure r)) w)
  rows_end id name b task lease status event r w holds known fields held storable =
      Ends-bind _ _ _ (record_lease-Ends id lease status b.token w held storable) (λ _ w₂ row.
        Ends-bind _ _ _ (record_outbox-Ends event id task w₂) (λ _ w₃ sent. Ends-pure _ _ (
          refl,
          rw (sent.kept, row.kept) holds,
          tracked id name b task w.files w₂ w₃ holds known fields row sent,
        )))

-- Loading a tracked task finds it in the queue of its status.
pub load_task_tracked :
    (id name : String) (a : Stage) (w : World) (t : Tracks id name a w)
    → json_file_name id ≡ ok name
    → load_task id w ≡ (ok (t.task, task_file a.status name, a.status), w)
unfolding load_task read_file to_dict ◌>>=◌
load_task_tracked id name a w t named = rw (
  named,
  find_in-Holds statuses name a.status t.task w t.known t.holds,
  Holds-self name a.status t.task w.files t.holds,
  read_file,
)

module _ {B : Type 0} {P : B → World → Type 0} {Q : Error → World → Type 0} where
  pub step_unlink_old :
      (old destination : FilePath) (f : Unit {0} → Exec B) (w : World) {v : Json}
      → path_eq old destination ≡ false
      → lookup old w.files ≡ some v
      → Ends P Q (f tt (removed old w))
      → Ends P Q ((unlink_old old destination >>= f) w)
  step_unlink_old old destination f w different there h = step _ _ unlinked h
    where
      unlinked : unlink_old old destination w ≡ (ok tt, removed old w)
      unlinked = unfold unlink_old in rw (different, exists-some old w there)
