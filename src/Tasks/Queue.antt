-- ===== src/Tasks/Queue.antt =====
-- tasks/store.py: finding, loading and submitting tasks.
use collective_capability_ru.Prelude.{
  String, Bool, true, false, Option, none, some, List, [], ◌∷◌, if◌then◌else◌,
}
use collective_capability_ru.Prelude.Map.{FilePath}
use collective_capability_ru.Prelude.Text.{◌<>◌}
use collective_capability_ru.Result.{Result, ok, err, value_error, file_not_found, key_error}
use collective_capability_ru.Json.{Json, Dict, str, obj}
use collective_capability_ru.Json.Fields.{get}
use collective_capability_ru.Json.Python.{get_default}
use collective_capability_ru.Env.{Env, to_text}
use collective_capability_ru.Exec.{
  World, Exec, pure, lift, raise, gets, exists, read_file, require, require_dict, write_new_file,
  ◌>>=◌, ◌>>◌,
}
use collective_capability_ru.Ids.{json_file_name, validate_identifier}
use collective_capability_ru.Tasks.{statuses, task_file, task_path}

-- The loop of `find_task_path` over the statuses.
unfoldable pub find_in : List String → String → World → Option (FilePath × String)
unfolding exists
find_in [] name w = none
find_in (status ∷ rest) name w =
    let later = find_in rest name w in
    if exists (task_file status name) w then some (task_file status name, status) else later

-- `find_task_path`
unfoldable pub find_task_path : String → Exec (Option (FilePath × String))
unfolding find_in
find_task_path id = do name ← lift (json_file_name id); gets (find_in statuses name)

found : Option (FilePath × String) → String → Exec (Dict × FilePath × String)
unfolding read_file
found none id = raise (file_not_found id)
found (some (path, status)) id = do
  value ← read_file path (file_not_found id)
  task ← require_dict value ("task " <> (id <> " is not a JSON object"))
  pure (task, path, status)

-- `load_task`
unfoldable pub load_task : String → Exec (Dict × FilePath × String)
unfolding find_task_path found
load_task id = do at ← find_task_path id; found at id

unfoldable pub no_errors : List String → Bool
no_errors [] = true
no_errors (_ ∷ _) = false

unfoldable pub task_id : Option Json → Result Json
task_id none = err (key_error "task_id")
task_id (some id) = ok id

module _ ⦃env : Env⦄ where
  -- `submit_task`: no other queue than the task's own is looked at.
  unfoldable pub submit_task : Dict → Exec FilePath
  unfolding no_errors task_id
  submit_task task = do
    require (no_errors (env.schema_errors "task" (obj task))) (value_error "invalid task")
    id ← lift (task_id (get "task_id" task))
    _ ← lift (validate_identifier (to_text id) "task_id")
    path ← lift (task_path (to_text id) (to_text (get_default (get "status" task) (str "open"))))
    write_new_file path (to_text id) (obj task)
    pure path
