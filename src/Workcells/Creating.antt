-- ===== src/Workcells/Creating.antt =====
-- A workcell that is created starts at the first stage; one that is there stays as it is.
use collective_capability_ru.Prelude.{
  String, ◌≡◌, refl, sym, ap, ◌∙◌, inl, inr, false, Bool-cases, Option-cases, none, some, List, [],
  ◌∷◌,
}
use collective_capability_ru.Prelude.Map.{
  FilePath, file_path_eq, path_eq, lookup, lookup-insert_self, lookup-insert_other,
}
use collective_capability_ru.Result.{
  Error, Result, value_error, file_not_found, file_exists, key_error, type_error, overflow_error,
  binding_error, attribute_error, ok, err, bind_ok, ok_inj,
}
use collective_capability_ru.Json.{Json, Dict, obj}
use collective_capability_ru.Json.Fields.{get}
use collective_capability_ru.Env.{Env, path_text}
use collective_capability_ru.Exec.{World, Exec, exists, write_new_file, write_file}
use collective_capability_ru.Exec.Laws.{
  Ends-weaken, Ends, Ends-pure, Ends-lift, Ends-bind, Ends-weaken_err, step_gets,
}
use collective_capability_ru.Exec.Steps.{step_now, tick, written, exists-none, exists-some}
use collective_capability_ru.Ids.{json_file_name}
use collective_capability_ru.Blackboard.Appending.{make_event_files, append_event_files}
use collective_capability_ru.Tasks.{task_path}
use collective_capability_ru.Tasks.Queue.{submit_task}
use collective_capability_ru.Tasks.Factory.{build_task}
use collective_capability_ru.Workcells.{get_elem?, workcell_file, role_stages}
use collective_capability_ru.Workcells.Submit.{workcell_event}
use collective_capability_ru.Workcells.Create.{
  create_workcell, unless_exists, role_task, submit_unless_exists, create_tasks, first_metadata,
  write_metadata, create_roles,
}
use collective_capability_ru.Workcells.Keeping.{Untouched}
use collective_capability_ru.Workcells.Runs.{IsStaged, same_place}

task_elsewhere :
    (name id status : String) (path : FilePath)
    → task_path id status ≡ ok path
    → path_eq path (workcell_file name) ≡ false
unfolding task_path
task_elsewhere name id status path h =
    let (file, e_1, h_1) = bind_ok (json_file_name id) _ h in
    ap (λ q. path_eq q (workcell_file name)) (sym (ok_inj h_1))

module _ (name : String) where
  new_Untouched :
      (path : FilePath) (id : String) (v : Json) (w : World)
      → path_eq path (workcell_file name) ≡ false
      → Ends
          (λ _ w'. Untouched name w w')
          (λ _ w'. Untouched name w w')
          (write_new_file path id v w)
  unfolding write_new_file write_file
  new_Untouched path id v w apart = elim (Bool-cases (exists path w)) [
    | inl there ↦ rw (there, write_new_file) (record { outcome = refl })
    | inr absent ↦
        rw (absent, write_new_file)
          (record { outcome = lookup-insert_other path (workcell_file name) v w.files apart })
  ]

  written_new :
      {P : Unit {0} → World → Type 0} {Q : Error → World → Type 0} (id : String) (v : Json)
      (w : World)
      → lookup (workcell_file name) w.files ≡ none
      → P tt (written (workcell_file name) v w)
      → Ends P Q (write_new_file (workcell_file name) id v w)
  unfolding write_new_file write_file
  written_new id v w absent h =
      rw (exists-none (workcell_file name) w absent, write_new_file) (record { outcome = h })

  suppressed :
      {A : Type 0} {R : World → Type 0} (x : Result A × World)
      → Ends (λ _ w'. R w') (λ _ w'. R w') x
      → Ends (λ _ w'. R w') (λ _ w'. R w') (unless_exists x)
  suppressed (ok a, w) h = record { outcome = h.outcome }
  suppressed (err (file_exists s), w) h = record { outcome = h.outcome }
  suppressed (err (value_error s), w) h = record { outcome = h.outcome }
  suppressed (err (file_not_found s), w) h = record { outcome = h.outcome }
  suppressed (err (key_error s), w) h = record { outcome = h.outcome }
  suppressed (err type_error, w) h = record { outcome = h.outcome }
  suppressed (err overflow_error, w) h = record { outcome = h.outcome }
  suppressed (err binding_error, w) h = record { outcome = h.outcome }
  suppressed (err attribute_error, w) h = record { outcome = h.outcome }

module _ ⦃env : Env⦄ (template name : String) where
  submitted_Untouched :
      (task : Dict) (w : World)
      → Ends (λ _ w'. Untouched name w w') (λ _ w'. Untouched name w w') (submit_task task w)
  unfolding submit_task
  submitted_Untouched task w =
      Ends-lift _ _ w
        (λ _ accepted.
          Ends-lift _ _ w
            (λ id there.
              Ends-lift _ _ w
                (λ _ valid.
                  Ends-lift _ _ w
                    (λ path placed.
                      Ends-bind _ _ _
                        (new_Untouched name path _ (obj task) w
                          (task_elsewhere name _ _ path placed))
                        (λ _ w' kept. Ends-pure _ _ kept))
                    (λ e fails. refl))
                (λ e fails. refl))
            (λ e fails. refl))
        (λ e fails. refl)

  tasks_Untouched :
      (roles : List (String × String)) (w : World)
      → Ends
          (λ _ w'. Untouched name w w')
          (λ _ w'. Untouched name w w')
          (create_tasks template name roles w)
  unfolding create_tasks submit_unless_exists
  tasks_Untouched [] w = Ends-pure _ _ refl
  tasks_Untouched ((role, stage) ∷ roles) w =
      Ends-bind _ _ _
        (suppressed name _
          (submitted_Untouched (build_task (role_task template name role stage)) w))
        (λ _ w_1 kept.
          Ends-bind _ _ _
            (Ends-weaken_err _ (tasks_Untouched roles w_1) (λ e w_2 more. more ∙ kept))
            (λ _ w_2 more. Ends-pure _ _ (more ∙ kept)))

  -- A new workcell is at the first stage, and an old one is as it was.
  abbrev pub Starts : World → World → Type 0
  Starts w w' =
      (lookup (workcell_file name) w.files ≡ none → IsStaged name 0 w')
      × ((v : Json)
          → lookup (workcell_file name) w.files ≡ some v
          → lookup (workcell_file name) w'.files ≡ some v)

  first_place :
      (at : String) (w : World)
      → IsStaged name 0 (written (workcell_file name) (obj (first_metadata template name at)) w)
  unfolding get get_elem?
  first_place at w = record {
    metadata = first_metadata template name at;
    there = lookup-insert_self _ _ _;
    stage = "independent_proposal";
    at = refl;
    says = refl;
    history = refl;
  }

  metadata-Starts :
      (w : World)
      → Ends
          (λ _ w'. Starts w w')
          (λ _ w'. Unit {0})
          (write_metadata template name (exists (workcell_file name) w) w)
  unfolding write_metadata
  metadata-Starts w = elim (Option-cases (lookup (workcell_file name) w.files)) [
    | inl absent ↦
        rw (exists-none (workcell_file name) w absent) (
          step_now _ _ (written_new name _ _ (tick w) absent (λ _. first_place _ _, λ v there. cc)))
    | inr (v, there) ↦
        rw (exists-some (workcell_file name) w there) (Ends-pure _ _ (λ absent. cc, λ _ same. same))
  ]

  create_roles_refines :
      (w : World) → Ends (λ _ w'. Starts w w') (λ _ w'. Unit {0}) (create_roles template name w)
  unfolding create_roles
  create_roles_refines w =
      Ends-bind _ _ _ (Ends-weaken_err _ (tasks_Untouched role_stages w) (λ e w_1 kept. tt))
        (λ tally w_1 kept. step_gets _ _ refl (
          Ends-bind _ _ _ (metadata-Starts w_1) (λ _ w_2 starts.
            Ends-bind _ _ _
              (make_event_files
                (workcell_event "workcell.create" name "open" (path_text (workcell_file name) ∷ [])
                  [])
                w_2)
              (λ event w_3 k. Ends-bind _ _ _ (append_event_files event w_3) (λ _ w_4 l.
                Ends-pure _ _ (
                  λ absent. same_place name 0 w_2 w_4 (starts.0 (kept ∙ absent)) (l ∙ k),
                  λ v there. ap (lookup (workcell_file name)) (l ∙ k) ∙ starts.1 v (kept ∙ there),
                ))))))

  -- Where `create_workcell` returns, and `init_runtime`, which it calls first, keeps the metadata of
  -- the workcell: a workcell that was not there is at the first stage, with that stage alone in its
  -- history; the metadata of one that was there is as it was.
  pub create_workcell_refines :
      (init_runtime : Exec (Unit {0})) (w : World)
      → Ends
          (λ _ w_1. lookup (workcell_file name) w_1.files ≡ lookup (workcell_file name) w.files)
          (λ _ _. Unit {0})
          (init_runtime w)
      → Ends (λ _ w'. Starts w w') (λ _ w'. Unit {0}) (create_workcell init_runtime template name w)
  unfolding create_workcell
  create_workcell_refines init_runtime w keeps =
      Ends-lift _ _ w
        (λ _ _. Ends-bind _ _ _ keeps (λ _ w_1 same.
          Ends-weaken _ (create_roles_refines w_1) (λ _ w' starts.
            (λ absent. starts.0 (same ∙ absent), λ v there. starts.1 v (same ∙ there)))))
        (λ _ _. tt)
