-- ===== src/Workcells/Keeping.antt =====
-- A submission leaves the stage and the history of its workcell.
use collective_capability_ru.Prelude.{
  String, ◌≡◌, refl, ◌∙◌, sym, ap, false, some, List, [], ◌∷◌, eq_refl,
}
use collective_capability_ru.Prelude.Map.{
  FilePath, file_path_eq, lookup, path_eq, lookup-insert_self, lookup-insert_other,
}
use collective_capability_ru.Result.{Result, ok, bind_ok, ok_inj}
use collective_capability_ru.Json.{Json, Dict, null, bool, int, float, str, arr, obj}
use collective_capability_ru.Json.Fields.{set, get, get-set}
use collective_capability_ru.Env.{path_text, Env}
use collective_capability_ru.Exec.{World}
use collective_capability_ru.Exec.Laws.{Ends, Ends-pure, Ends-lift, Ends-bind, Ends-weaken_err}
use collective_capability_ru.Exec.Steps.{stamp, written, step_now, step_write}
use collective_capability_ru.Ids.{json_file_name, validate_identifier}
use collective_capability_ru.Blackboard.Appending.{make_event_files, append_event_files}
use collective_capability_ru.Blackboard.{EventSpec}
use collective_capability_ru.Residuals.Store.{residual_path, save_residual}
use collective_capability_ru.Residuals.Building.{build_residual-Same}
use collective_capability_ru.Workcells.{current_stage, workcell_file}
use collective_capability_ru.Workcells.Loading.{step_load}
use collective_capability_ru.Workcells.Submit.{
  workcell_event, envelope, submission_file, submission_residual, materialize_each,
  materialize_submission_residuals, submit_workcell,
}

-- The file of the workcell's metadata is as it was.
abbrev pub Untouched : String → World → World → Type 0
Untouched name w w' = lookup (workcell_file name) w'.files ≡ lookup (workcell_file name) w.files

residual_elsewhere :
    (name id status : String) (path : FilePath)
    → residual_path id status ≡ ok path
    → path_eq path (workcell_file name) ≡ false
unfolding residual_path
residual_elsewhere name id status path h =
    let (_, e_1, h_1) = bind_ok (validate_identifier id "residual_id") _ h in
    let (_, e_2, h_2) = bind_ok (validate_identifier status "residual_status") _ h_1 in
    let (file, e_3, h_3) = bind_ok (json_file_name id) _ h_2 in
    ap (λ q. path_eq q (workcell_file name)) (sym (ok_inj h_3))

module _ ⦃env : Env⦄ (name : String) where
  saved_Untouched :
      (residual : Dict) (w : World)
      → Ends (λ _ w'. Untouched name w w') (λ _ w'. Untouched name w w') (save_residual residual w)
  unfolding save_residual
  saved_Untouched residual w =
      Ends-lift _ _ w
        (λ _ valid.
          Ends-lift _ _ w
            (λ id there.
              Ends-lift _ _ w
                (λ path placed. step_write _ _ _ _ (
                  Ends-pure _ _
                    (lookup-insert_other _ _ _ _ (residual_elsewhere name _ _ path placed))))
                (λ e fails. refl))
            (λ e fails. refl))
        (λ e fails. refl)

  each_Untouched :
      (destination : String) (raws : List Json) (w : World)
      → Ends
          (λ _ w'. Untouched name w w')
          (λ _ w'. Untouched name w w')
          (materialize_each name destination raws w)
  unfolding materialize_each
  each_Untouched destination [] w = Ends-pure _ _ refl
  each_Untouched destination (obj raw ∷ rest) w =
      Ends-bind _ _ _ (build_residual-Same (submission_residual name destination raw) w)
        (λ residual w_1 same.
          Ends-bind _ _ _
            (Ends-weaken_err _ (saved_Untouched residual w_1)
              (λ e w_2 kept. kept ∙ ap (lookup (workcell_file name)) same.files))
            (λ _ w_2 kept.
              let so_far = kept ∙ ap (lookup (workcell_file name)) same.files in
              Ends-bind _ _ _
                (Ends-weaken_err _ (each_Untouched destination rest w_2) (λ e w_3 l. l ∙ so_far))
                (λ ids w_3 l. Ends-pure _ _ (l ∙ so_far))))
  each_Untouched destination (null ∷ rest) w = each_Untouched destination rest w
  each_Untouched destination (bool b ∷ rest) w = each_Untouched destination rest w
  each_Untouched destination (int n ∷ rest) w = each_Untouched destination rest w
  each_Untouched destination (float x ∷ rest) w = each_Untouched destination rest w
  each_Untouched destination (str s ∷ rest) w = each_Untouched destination rest w
  each_Untouched destination (arr xs ∷ rest) w = each_Untouched destination rest w

  all_Untouched :
      (contribution : Dict) (destination : String) (w : World)
      → Ends
          (λ _ w'. Untouched name w w')
          (λ _ w'. Untouched name w w')
          (materialize_submission_residuals name contribution destination w)
  unfolding materialize_submission_residuals
  all_Untouched contribution destination w =
      Ends-lift _ _ w (λ raws listed. each_Untouched destination raws w) (λ e fails. refl)

  -- The metadata has the stage and the history of `d`.
  pub record Keeps (d : Dict) (w' : World) : Type 0 where
    pub metadata : Dict
    pub there : lookup (workcell_file name) w'.files ≡ some (obj metadata)
    pub stage : get "current_stage" metadata ≡ get "current_stage" d
    pub history : get "stage_history" metadata ≡ get "stage_history" d

  Keeps-self :
      (d : Dict) (w : World) → lookup (workcell_file name) w.files ≡ some (obj d) → Keeps d w
  Keeps-self d w h = record { metadata = d; there = h; stage = refl; history = refl }

  abbrev submit_event : String → String → List String → EventSpec
  submit_event stage file ids =
      workcell_event "workcell.submit" name "submitted"
        (path_text (submission_file name stage file) ∷ []) ids

  elsewhere :
      (stage file : String) (v : Json) (w : World)
      → Untouched name w (written (submission_file name stage file) v w)
  elsewhere stage file v w =
      lookup-insert_other (submission_file name stage file) (workcell_file name) v w.files
        (simp eq_refl)

  -- Whether a submission returns or raises, the metadata has the stage and the history as before.
  pub submit_workcell-Keeps :
      (file : Result Json) (d : Dict) (w : World)
      → lookup (workcell_file name) w.files ≡ some (obj d)
      → Ends (λ _ w'. Keeps d w') (λ _ w'. Keeps d w') (submit_workcell name file w)
  unfolding submit_workcell
  submit_workcell-Keeps file d w h =
      Ends-lift _ _ w
        (λ _ valid.
          step_load name w _
            (λ metadata there.
              Ends-lift _ _ w
                (λ value read.
                  Ends-lift _ _ w
                    (λ contribution object.
                      Ends-lift _ _ w
                        (λ _ known.
                          Ends-lift _ _ w
                            (λ file_name named. step_write _ _ _ _ (
                              Ends-bind _ _ _
                                (Ends-weaken_err _
                                  (all_Untouched contribution
                                    (path_text
                                      (submission_file name (current_stage metadata) file_name))
                                    _)
                                  (λ e w_1 kept. Keeps-self d w_1 (
                                    kept
                                    ∙ elsewhere (current_stage metadata) file_name
                                        (obj (envelope name (current_stage metadata) contribution))
                                        w
                                    ∙ h)))
                                (λ ids w_1 kept. step_now _ _ (
                                  step_write _ _ _ _ (
                                    Ends-bind _ _ _
                                      (make_event_files
                                        (submit_event (current_stage metadata) file_name ids) _)
                                      (λ event w_2 k.
                                        Ends-bind _ _ _ (append_event_files event w_2) (λ _ w_3 l.
                                          Ends-pure _ _ (record {
                                            metadata = set "updated_at" (str (stamp w_1)) metadata;
                                            there =
                                                ap (lookup (workcell_file name)) (l ∙ k)
                                                ∙ lookup-insert_self _ _ _;
                                            stage = simp get-set (same_field "current_stage" there);
                                            history =
                                                simp get-set (same_field "stage_history" there);
                                          }))))))))
                            (λ e fails. Keeps-self d w h))
                        (λ e fails. Keeps-self d w h))
                    (λ e fails. Keeps-self d w h))
                (λ e fails. Keeps-self d w h))
            (λ e. Keeps-self d w h))
        (λ e fails. Keeps-self d w h)
    where
      same_field :
          (key : String) {metadata : Dict}
          → lookup (workcell_file name) w.files ≡ some (obj metadata)
          → get key metadata ≡ get key d
      same_field key there = cc
