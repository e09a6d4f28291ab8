-- ===== src/Workcells/Create.antt =====
-- `create_workcell`: one open task for each role, and the metadata at the first stage.
use Prim.Native.Char.{Char, code}
use collective_capability_ru.Prelude.{String, Bool, true, false, List, [], ◌∷◌, ◌==◌, if◌then◌else◌}
use collective_capability_ru.Prelude.Int.{pos}
use collective_capability_ru.Prelude.Sorted.{sort_texts}
use collective_capability_ru.Prelude.Text.{◌<>◌}
use collective_capability_ru.Result.{Result, ok, err, file_exists}
use collective_capability_ru.Json.{Dict, bool, str, arr, obj, nil, dict, strings}
use collective_capability_ru.Env.{Env, path_text}
use collective_capability_ru.Exec.{
  World, Exec, pure, lift, gets, exists, now_iso, write_new_file, ◌>>=◌, ◌>>◌,
}
use collective_capability_ru.Ids.{validate_identifier}
use collective_capability_ru.Blackboard.{make_event, append_event}
use collective_capability_ru.Tasks.Factory.{TaskSpec, build_task, task_id_of}
use collective_capability_ru.Tasks.Queue.{submit_task}
use collective_capability_ru.Workcells.{workcell_stages, role_stages, workcell_roles, workcell_file}
use collective_capability_ru.Workcells.Submit.{workcell_event}

underline : Char → Char
underline c = if code c == b'-' then "_" else c

-- `template.replace("-", "_")`
unfoldable pub underlined : String → String
unfolding underline
underlined String.[] = String.[]
underlined (String.◌∷◌ c s) = String.◌∷◌ (underline c) (underlined s)

-- What the loop over the roles collects.
pub record Tally : Type 0 where
  pub created : List String
  pub existing : List String

-- Whether the block returned: `suppress(FileExistsError)`.
abbrev pub unless_exists : {A : Type 0} → Result A × World → Result Bool × World
unless_exists (ok a, w) = (ok true, w)
unless_exists (err (file_exists _), w) = (ok false, w)
unless_exists (err e, w) = (err e, w)

module _ ⦃env : Env⦄ where
  -- The task of one role.
  unfoldable pub role_task : String → String → String → String → TaskSpec
  unfolding underlined
  role_task template name role stage = record {
    kind = underlined template;
    title = name <> (" " <> (role <> " work"));
    objective = role <> (" contribution for " <> (template <> (" workcell " <> (name <> "."))));
    role = role;
    source = "workcell:" <> (name <> (":" <> role));
    priority = pos 50;
    inputs = nil;
    extensions = dict (
        ("x_workcell", str name)
        ∷ ("x_workcell_stage", str stage)
        ∷ ("x_workcell_template", str template)
        ∷ []);
  }

  abbrev pub tallied : String → Bool → Tally → Tally
  tallied id true t = record t { created = id ∷ t.created }
  tallied id false t = record t { existing = id ∷ t.existing }

  unfoldable pub submit_unless_exists : TaskSpec → Exec Bool
  unfolding submit_task build_task
  submit_unless_exists spec w = unless_exists (submit_task (build_task spec) w)

  -- The loop over the roles.
  unfoldable pub create_tasks : String → String → List (String × String) → Exec Tally
  unfolding role_task submit_unless_exists task_id_of
  create_tasks template name [] = pure (record { created = []; existing = [] })
  create_tasks template name ((role, stage) ∷ roles) = do
    fresh ← submit_unless_exists (role_task template name role stage)
    tally ← create_tasks template name roles
    pure (tallied (task_id_of (role_task template name role stage)) fresh tally)

  -- The metadata of a new workcell.
  abbrev pub first_metadata : String → String → String → Dict
  first_metadata template name at = dict (
      ("created_at", str at)
      ∷ ("current_stage", str "independent_proposal")
      ∷ ("name", str name)
      ∷ ("roles", arr (strings workcell_roles))
      ∷ ("schema_version", str "ccr.workcell.v2")
      ∷ ("stage_history", arr (strings ("independent_proposal" ∷ [])))
      ∷ ("stages", arr (strings workcell_stages))
      ∷ ("template", str template)
      ∷ [])

  -- `if not path.exists(): write_json_atomic(path, ..., overwrite=False)`
  unfoldable pub write_metadata : String → String → Bool → Exec (Unit {0})
  unfolding now_iso write_new_file
  write_metadata template name true = pure tt
  write_metadata template name false = do
    at ← now_iso
    write_new_file (workcell_file name) name (obj (first_metadata template name at))

  -- `create_workcell`, from the loop over the roles on.
  unfoldable pub create_roles : String → String → Exec Dict
  unfolding create_tasks exists write_metadata make_event append_event path_text sort_texts
  create_roles template name = do
    tally ← create_tasks template name role_stages
    there ← gets (exists (workcell_file name))
    write_metadata template name there
    event ←
        make_event
          (workcell_event "workcell.create" name "open" (path_text (workcell_file name) ∷ []) [])
    append_event event
    pure (
        dict (
          ("created_tasks", arr (strings (sort_texts tally.created)))
          ∷ ("existing_tasks", arr (strings (sort_texts tally.existing)))
          ∷ ("name", str name)
          ∷ ("ok", bool true)
          ∷ ("path", str (path_text (workcell_file name)))
          ∷ ("schema_version", str "ccr.workcell_create.v2")
          ∷ ("stage", str "independent_proposal")
          ∷ ("template", str template)
          ∷ []))

  -- `create_workcell`, with `init_runtime` as an action of its own.
  unfoldable pub create_workcell : Exec (Unit {0}) → String → String → Exec Dict
  unfolding create_roles validate_identifier
  create_workcell init_runtime template name = do
    _ ← lift (validate_identifier name "workcell")
    init_runtime
    create_roles template name
