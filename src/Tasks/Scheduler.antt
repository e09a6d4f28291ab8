-- ===== src/Tasks/Scheduler.antt =====
-- tasks/scheduler.py, and `iter_tasks` of tasks/store.py: the task that a role should take next.
pub mod Score
pub mod Ranking
pub mod Order
pub mod Choice
use Prim.Native.Nat.{Ordering}
use Prim.Native.String.{compare as compare_text}
use collective_capability_ru.Prelude.{
  String, Bool, true, false, not, ◌&&◌, ◌||◌, Option, none, some, List, [], ◌∷◌, ◌++◌, any, elem,
  str_eq, if◌then◌else◌,
}
use collective_capability_ru.Prelude.Map.{FilePath, file_path_eq, lookup}
use collective_capability_ru.Result.{Result, ok, err, value_error, type_error, ◌>>=◌ as bind_result}
use collective_capability_ru.Json.{Json, Dict, null, str, arr, obj, elements}
use collective_capability_ru.Json.Fields.{get}
use collective_capability_ru.Json.Python.{get_default, is_str, member_of}
use collective_capability_ru.Env.{Env, to_text}
use collective_capability_ru.Floats.{Floats}
use collective_capability_ru.Exec.{World, Exec, pure, lift, gets, ◌>>=◌}
use collective_capability_ru.Exec.Directory.{named, star_json, glob_sorted, objects_of}
use collective_capability_ru.Tasks.{statuses}
use collective_capability_ru.Tasks.Scheduler.Ranking.{choose}

-- The loop of `iter_tasks` over the queues.
unfoldable pub tasks_in : List String → World → List Dict
unfolding glob_sorted
tasks_in [] w = []
tasks_in (status ∷ rest) w =
    objects_of (glob_sorted (named "tasks" ∷ named status ∷ star_json ∷ []) w.files)
    ++ tasks_in rest w

-- `[status] if status else list(STATUS_TO_DIR)`
abbrev pub queues : Option String → List String
queues none = statuses
queues (some status) = if str_eq status "" then statuses else status ∷ []

-- `iter_tasks`
unfoldable pub iter_tasks : Option String → World → List Dict
unfolding tasks_in
iter_tasks status w = tasks_in (queues status) w

-- `extensions.get(key)`, where it is a text.
abbrev pub text_at : String → Dict → Option String
text_at key d = elim (get key d) [ some (str s) ↦ some s | _ ↦ none ]

module _ ⦃env : Env⦄ where
  -- Whether the stage in the metadata at this path is the expected one; no file, no stage.
  abbrev pub at_stage : Option Json → String → Bool
  at_stage (some (obj metadata)) expected = is_str (get "current_stage" metadata) expected
  at_stage _ expected = false

  abbrev pub stage_at : Option FilePath → String → World → Result Bool
  stage_at none expected w = err (value_error "workcell path must stay within the root")
  stage_at (some path) expected w = ok (at_stage (lookup path w.files) expected)

  abbrev pub stage_named : Option String → Option String → World → Result Bool
  stage_named (some workcell) (some expected) w =
      stage_at (env.resolve ("workcells" ∷ workcell ∷ "workcell.json" ∷ [])) expected w
  stage_named _ _ w = ok true

  abbrev pub stage_in : Option Json → World → Result Bool
  stage_in (some (obj extensions)) w =
      stage_named (text_at "x_workcell" extensions) (text_at "x_workcell_stage" extensions) w
  stage_in _ w = ok true

  -- `_workcell_stage_active`
  unfoldable pub workcell_stage_active : Dict → World → Result Bool
  workcell_stage_active task w = stage_in (get "extensions" task) w

  abbrev pub task_id_text : Dict → String
  task_id_text task = to_text (get_default (get "task_id" task) null)

  -- `completed`, of the tasks whose status says so.
  unfoldable pub completed_ids : List Dict → Result (List String)
  unfolding to_text member_of
  completed_ids [] = ok []
  completed_ids (task ∷ tasks) =
      bind_result (member_of (get "status" task) ("submitted" ∷ "verified" ∷ "integrated" ∷ []))
        (λ done.
          bind_result (completed_ids tasks)
            (λ ids. ok (if done then task_id_text task ∷ ids else ids)))

  -- `any(str(item) not in completed for item in dependencies)`, of a list.
  abbrev pub lacks : List String → Option Json → Bool
  lacks completed (some (arr xs)) = any (λ x. not (elem (to_text x) completed)) (elements xs)
  lacks completed _ = false

  -- The first two tests of the loop.
  abbrev pub is_eligible : String → List String → Dict → Bool
  is_eligible role completed task =
      is_str (get "role" task) role
      && is_str (get "status" task) "open"
      && not (lacks completed (get "dependencies" task))

  -- The loop that fills `candidates`.
  unfoldable pub candidates_of : String → List String → List Dict → World → Result (List Dict)
  unfolding workcell_stage_active to_text
  candidates_of role completed [] w = ok []
  candidates_of role completed (task ∷ tasks) w =
      let rest = candidates_of role completed tasks w in
      if is_eligible role completed task
      then bind_result (workcell_stage_active task w)
          (λ active. bind_result rest (λ others. ok (if active then task ∷ others else others)))
      else rest

  -- The loop, on the state.
  unfoldable pub candidates_in : String → List String → List Dict → Exec (List Dict)
  unfolding candidates_of
  candidates_in role completed tasks w = (candidates_of role completed tasks w, w)

module _ ⦃env : Env⦄ ⦃floats : Floats⦄ where
  -- `next_task`: nothing is leased by it.
  unfoldable pub next_task : String → Exec (Option Dict)
  unfolding iter_tasks completed_ids candidates_in choose
  next_task role = do
    tasks ← gets (iter_tasks none)
    completed ← lift (completed_ids tasks)
    candidates ← candidates_in role completed tasks
    choose candidates
