-- ===== src/Tasks/Tracking.antt =====
-- A task that lies in exactly one queue, with a lease row that agrees with its file.
use collective_capability_ru.Prelude.{
  zero, suc, String, ◌≡◌, refl, Bool, true, false, Option, none, some, List, [], ◌∷◌, arith, eq_iff,
  eq_refl, str_eq, elem, if◌then◌else◌,
}
use collective_capability_ru.Prelude.Int.{ℤ, pos, negsuc}
use collective_capability_ru.Prelude.Map.{
  FilePath, string_eq, file_path_eq, path_eq, lookup, insert, erase, lookup-insert, lookup-erase,
}
use collective_capability_ru.Result.{ok}
use collective_capability_ru.Json.{Json, Dict, int, str, obj}
use collective_capability_ru.Json.Fields.{get, set, get-set}
use collective_capability_ru.Json.Python.{to_int, or_default}
use collective_capability_ru.Exec.{World, Database, exists}
use collective_capability_ru.Exec.Columns.{bindable, is_int64}
use collective_capability_ru.Exec.Laws.{Same}
use collective_capability_ru.Tasks.Machine.{Stage}
use collective_capability_ru.Tasks.{statuses, task_file, token_of, lease_of, dict_copy}
use collective_capability_ru.Tasks.Lease.{lease_required}
use collective_capability_ru.Tasks.Queue.{find_in}

-- Of all directories below `tasks`, only that of `status` has a file of this name.
abbrev pub Holds : String → String → Dict → List (FilePath × Json) → Type 0
Holds name status task files =
    (s : String)
    → lookup (task_file s name) files ≡ (if str_eq status s then some (obj task) else none)

-- The token of the lease row, 0 where there is none.
abbrev pub row_token : String → Database → ℤ
row_token id db = elim (lookup id db.leases) [ none ↦ pos 0 | some row ↦ row.fencing_token ]

-- A lease with this token that a row can hold.
pub record IsStorable (lease : Dict) (token : ℤ) : Type 0 where
  pub by : bindable (get "leased_by" lease) ≡ true
  pub at : bindable (get "leased_at" lease) ≡ true
  pub minutes : bindable (get "ttl_minutes" lease) ≡ true
  pub small : is_int64 token ≡ true
  pub beat : bindable (get "heartbeat_at" lease) ≡ true
  pub key : bindable (get "idempotency_key" lease) ≡ true

-- What the file of a tracked task says: its identifier, and a lease that can be read and that a row
-- can hold.
pub record IsTask (id : String) (holder : Option Json) (token : ℤ) (task : Dict) : Type 0 where
  pub key : get "task_id" task ≡ some (str id)
  pub copies : dict_copy (get "lease" task) ≡ ok (lease_of task)
  pub required : Bool
  pub flag : lease_required (get "lease_required" (lease_of task)) ≡ ok required
  pub held_by : get "leased_by" (lease_of task) ≡ holder
  pub fenced : token_of (lease_of task) ≡ ok token
  pub storable : IsStorable (lease_of task) token

-- The task `id`, whose file is called `name`, is at the stage `a`.
pub record Tracks (id name : String) (a : Stage) (w : World) : Type 0 where
  pub task : Dict
  pub holds : Holds name a.status task w.files
  pub known : elem a.status statuses ≡ true
  pub fields : IsTask id a.holder a.token task
  pub row : row_token id w.db ≡ a.token

unfoldable pub Tracks-Same :
    (id name : String) (a : Stage) (w w' : World)
    → Same w w'
    → Tracks id name a w
    → Tracks id name a w'
Tracks-Same id name a w w' same t = record {
  task = t.task;
  holds = rw same.files t.holds;
  known = t.known;
  fields = t.fields;
  row = rw same.db t.row;
}

pub path_eq_task : (s t name : String) → path_eq (task_file s name) (task_file t name) ≡ str_eq s t
path_eq_task s t name = ground (arith, eq_refl name)

pub Holds-self :
    (name s : String) (task : Dict) (files : List (FilePath × Json))
    → Holds name s task files
    → lookup (task_file s name) files ≡ some (obj task)
Holds-self name s task files h = ground (arith, h s, eq_refl s)

pub Holds-other :
    (name s t : String) (task : Dict) (files : List (FilePath × Json))
    → str_eq s t ≡ false
    → Holds name s task files
    → lookup (task_file t name) files ≡ none
Holds-other name s t task files ne h = ground (arith, h t)

pub Holds-exists :
    (name s : String) (task : Dict) (w : World) (t : String)
    → Holds name s task w.files
    → exists (task_file t name) w ≡ str_eq s t
unfolding exists
Holds-exists name s task w t h = ground (arith, h t)

pub Holds-written :
    (name s : String) (task task' : Dict) (files : List (FilePath × Json))
    → Holds name s task files
    → Holds name s task' (insert (task_file s name) (obj task') files)
Holds-written name s task task' files h t = ground (
  arith,
  lookup-insert (task_file s name) (task_file t name) (obj task') files,
  h t,
  path_eq_task s t name,
)

pub Holds-moved :
    (name s d : String) (task task' : Dict) (files : List (FilePath × Json))
    → str_eq s d ≡ false
    → Holds name s task files
    → Holds name d task' (erase (task_file s name) (insert (task_file d name) (obj task') files))
Holds-moved name s d task task' files ne h t = ground (
  arith,
  lookup-insert (task_file d name) (task_file t name) (obj task') files,
  lookup-erase (task_file s name) (task_file t name) (insert (task_file d name) (obj task') files),
  h t,
  path_eq_task s t name,
  path_eq_task d t name,
  eq_iff s t,
  eq_iff d t,
  eq_iff s d,
)

pub find_in-Holds :
    (l : List String) (name s : String) (task : Dict) (w : World)
    → elem s l ≡ true
    → Holds name s task w.files
    → find_in l name w ≡ some (task_file s name, s)
unfolding find_in exists
find_in-Holds [] name s task w known h = cc
find_in-Holds (x ∷ l) name s task w known h =
    ground (arith, h x, eq_iff s x, eq_refl s, find_in-Holds l name s task w)

pub token_int : (t : ℤ) → to_int (or_default (some (int t)) (int (pos 0))) ≡ ok t
unfolding to_int
token_int (pos zero) = refl
token_int (pos (suc n)) = refl
token_int (negsuc n) = refl

-- A lease that was written with a token has it.
pub token_of-written :
    (lease : Dict) (t : ℤ) → get "fencing_token" lease ≡ some (int t) → token_of lease ≡ ok t
token_of-written lease t h = rw h (token_int t)

pub dict_copy-obj : (d : Dict) → dict_copy (some (obj d)) ≡ ok d
unfolding dict_copy
dict_copy-obj d = refl

-- A task is tracked after its lease is replaced by one that can be read.
pub relet-IsTask :
    (id : String) (holder : Option Json) (t : ℤ) (required : Bool) (lease task : Dict)
    → get "task_id" task ≡ some (str id)
    → get "leased_by" lease ≡ holder
    → lease_required (get "lease_required" lease) ≡ ok required
    → token_of lease ≡ ok t
    → IsStorable lease t
    → IsTask id holder t (set "lease" (obj lease) task)
relet-IsTask id holder t required lease task key held flag fenced storable = record {
  key = rw get-set key;
  copies = rw get-set (dict_copy-obj lease);
  required = required;
  flag = rw get-set flag;
  held_by = rw get-set held;
  fenced = rw get-set fenced;
  storable = rw get-set storable;
}

-- Neither stamp changes the identifier.
pub restamp-key :
    (id status at : String) (task : Dict)
    → get "task_id" task ≡ some (str id)
    → get "task_id" (set "updated_at" (str at) (set "status" (str status) task)) ≡ some (str id)
restamp-key id status at task key = simp get-set key

-- No other key of the task matters.
pub set-IsTask :
    (id : String) (holder : Option Json) (t : ℤ) (k : String) (v : Json) (task : Dict)
    → str_eq k "task_id" ≡ false
    → str_eq k "lease" ≡ false
    → IsTask id holder t task
    → IsTask id holder t (set k v task)
set-IsTask id holder t k v task other_key other_lease h = record {
  key = rw get-set (rw other_key h.key);
  copies = rw get-set (rw other_lease h.copies);
  required = h.required;
  flag = rw get-set (rw other_lease h.flag);
  held_by = rw get-set (rw other_lease h.held_by);
  fenced = rw get-set (rw other_lease h.fenced);
  storable = rw get-set (rw other_lease h.storable);
}

-- While the new file is there and the old one too.
pub Holds-before_unlink :
    (name s d : String) (task : Dict) (v : Json) (files : List (FilePath × Json))
    → str_eq s d ≡ false
    → Holds name s task files
    → lookup (task_file s name) (insert (task_file d name) v files) ≡ some (obj task)
Holds-before_unlink name s d task v files ne h = ground (
  arith,
  lookup-insert (task_file d name) (task_file s name) v files,
  h s,
  path_eq_task d s name,
  eq_iff d s,
  eq_iff s d,
  eq_refl s,
)
