-- ===== src/Tasks/Submitting.antt =====
-- A task that is built and submitted starts its life in the open queue.
use collective_capability_ru.Prelude.{String, ◌≡◌, refl, true, none, some}
use collective_capability_ru.Prelude.Int.{pos}
use collective_capability_ru.Prelude.Map.{string_eq, file_path_eq, lookup}
use collective_capability_ru.Json.{null}
use collective_capability_ru.Json.Fields.{get}
use collective_capability_ru.Json.Python.{to_int}
use collective_capability_ru.Env.{Env}
use collective_capability_ru.Exec.{World}
use collective_capability_ru.Tasks.{task_file, dict_copy}
use collective_capability_ru.Tasks.Machine.{Stage}
use collective_capability_ru.Tasks.Tracking.{IsTask}
use collective_capability_ru.Tasks.Lease.{lease_required}
use collective_capability_ru.Tasks.Factory.{TaskSpec, build_task, task_id_of}

-- No queue has a file of this name.
abbrev pub IsAbsent : String → World → Type 0
IsAbsent name w = (s : String) → lookup (task_file s name) w.files ≡ none

-- Where the life of a task from `build_task` starts: open, held by nobody, under no token.
abbrev pub first_stage : Stage
first_stage = record { status = "open"; holder = some null; token = pos 0 }

pub built-IsTask :
    ⦃env : Env⦄ (spec : TaskSpec) → IsTask (task_id_of spec) (some null) (pos 0) (build_task spec)
unfolding build_task get dict_copy lease_required to_int
built-IsTask spec = record {
  key = refl;
  copies = refl;
  required = true;
  flag = refl;
  held_by = refl;
  fenced = refl;
  storable = record { by = refl; at = refl; minutes = refl; small = refl; beat = refl; key = refl };
}
