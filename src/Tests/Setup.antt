-- ===== src/Tests/Setup.antt =====
-- A concrete environment, and runtime roots with one task.
use Prim.Native.String.{String}
use collective_capability_ru.Prelude.{
  ℕ, zero, suc, ◌*◌, ◌≡◌, refl, ap, true, Option, none, some, List, [], ◌∷◌, arith, eq_refl, elem,
}
use collective_capability_ru.Prelude.Int.{pos}
use collective_capability_ru.Prelude.Map.{FilePath, string_eq, file_path_eq, lookup}
use collective_capability_ru.Json.{Json, Dict, bool, int, str, obj, end, dict}
use collective_capability_ru.Json.Fields.{get}
use collective_capability_ru.Json.Python.{to_int}
use collective_capability_ru.Env.{Env, Moment}
use collective_capability_ru.Exec.{World, LeaseRow}
use collective_capability_ru.Tasks.{statuses, task_file, dict_copy}
use collective_capability_ru.Ids.{json_file_name, validate_identifier}
use collective_capability_ru.Result.{ok}
use collective_capability_ru.Tasks.Lease.{lease_required}
use collective_capability_ru.Tasks.Machine.{Stage}
use collective_capability_ru.Tasks.Tracking.{Holds, Tracks}

-- One stroke for each second.
abbrev strokes : ℕ → String
strokes zero = String.[]
strokes (suc n) = String.◌∷◌ "i" (strokes n)

abbrev count : String → ℕ
count String.[] = zero
count (String.◌∷◌ c s) = suc (count s)

count-strokes : (n : ℕ) → count (strokes n) ≡ n
count-strokes zero = refl
count-strokes (suc n) = ap suc (count-strokes n)

abbrev pub iso_text : ℕ → String
iso_text s = String.◌∷◌ "T" (strokes s)

abbrev from_text : String → Option Moment
from_text String.[] = none
from_text (String.◌∷◌ c s) = some (record { micros = count s * 1000000; aware = true })

pub from_text_iso :
    (s : ℕ) → from_text (iso_text s) ≡ some (record { micros = s * 1000000; aware = true })
from_text_iso s = rw (count-strokes s) refl

instance abbrev pub test_env : Env
test_env = record {
  sha256 = λ v. "0123456789abcdef01234567";
  repr = λ v. "{}";
  iso = iso_text;
  from_iso = from_text;
  from_iso-iso = from_text_iso;
  iso-not_empty = λ s. refl;
  casefold = λ s. s;
  root = "/srv/ccr";
  resolve = some;
  schema_errors = λ kind v. [];
}

-- A clock that stands at the second 61.
abbrev pub world_of : List (FilePath × Json) → List (String × LeaseRow) → World
world_of files leases = record {
  files = files;
  db = record {
    leases = leases;
    outbox = [];
    residuals = [];
    control = none;
    control_outbox = [];
    approvals = [];
  };
  events = [];
  clock = λ n. 61000000;
  readings = 0;
}

pub placed : (name s : String) (task : Dict) → Holds name s task ((task_file s name, obj task) ∷ [])
unfolding lookup
placed name s task t = ground (arith, eq_refl name)

abbrev pub open_task : Dict
open_task = dict (("task_id", str "t1") ∷ ("status", str "open") ∷ ("lease", obj end) ∷ [])

abbrev pub open_world : World
open_world = world_of ((task_file "open" "t1.json", obj open_task) ∷ []) []

abbrev pub open_stage : Stage
open_stage = record { status = "open"; holder = none; token = pos 0 }

-- A lease of one minute, given in the first second.
abbrev pub held_lease : Dict
held_lease = dict (
    ("lease_required", bool true)
    ∷ ("renewal_allowed", bool true)
    ∷ ("leased_at", str (iso_text 1))
    ∷ ("leased_by", str "ann")
    ∷ ("fencing_token", int (pos 3))
    ∷ ("ttl_minutes", int (pos 1))
    ∷ [])

abbrev pub leased_task : String → Dict
leased_task status =
    dict (("task_id", str "t1") ∷ ("status", str status) ∷ ("lease", obj held_lease) ∷ [])

abbrev held_row : String → LeaseRow
held_row status = record {
  leased_by = some (str "ann");
  leased_at = some (str (iso_text 1));
  ttl_minutes = some (int (pos 1));
  fencing_token = pos 3;
  heartbeat_at = none;
  idempotency_key = none;
  status = status;
  updated_at = iso_text 1;
}

-- The task as it lies in the queue of `status`, once leased to `ann`.
abbrev pub world_at : String → World
world_at status =
    world_of ((task_file status "t1.json", obj (leased_task status)) ∷ [])
      (("t1", held_row status) ∷ [])

abbrev pub stage_at : String → Stage
stage_at status = record { status = status; holder = some (str "ann"); token = pos 3 }

pub open_tracks : Tracks "t1" "t1.json" open_stage open_world
unfolding get dict_copy lease_required to_int lookup
open_tracks = record {
  task = open_task;
  holds = placed "t1.json" "open" open_task;
  known = refl;
  fields = record {
    key = refl;
    copies = refl;
    required = true;
    flag = refl;
    held_by = refl;
    fenced = refl;
    storable = record {
      by = refl;
      at = refl;
      minutes = refl;
      small = refl;
      beat = refl;
      key = refl;
    };
  };
  row = refl;
}

pub tracks_at :
    (s : String) → elem s statuses ≡ true → Tracks "t1" "t1.json" (stage_at s) (world_at s)
unfolding get dict_copy lease_required to_int lookup
tracks_at s known = record {
  task = leased_task s;
  holds = placed "t1.json" s (leased_task s);
  known = known;
  fields = record {
    key = refl;
    copies = refl;
    required = true;
    flag = refl;
    held_by = refl;
    fenced = refl;
    storable = record {
      by = refl;
      at = refl;
      minutes = refl;
      small = refl;
      beat = refl;
      key = refl;
    };
  };
  row = refl;
}

pub file_name : json_file_name "t1" ≡ ok "t1.json"
unfolding json_file_name validate_identifier
file_name = refl
