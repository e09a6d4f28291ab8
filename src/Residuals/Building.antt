-- ===== src/Residuals/Building.antt =====
-- `build_residual` writes nothing: saving the entry is its caller's.
use collective_capability_ru.Prelude.{String, ◌≡◌, refl, some}
use collective_capability_ru.Prelude.Map.{file_path_eq, insert}
use collective_capability_ru.Result.{Error, ok}
use collective_capability_ru.Json.{Dict, bool, str, obj}
use collective_capability_ru.Json.Fields.{get}
use collective_capability_ru.Env.{Env, to_text}
use collective_capability_ru.Exec.{World}
use collective_capability_ru.Exec.Laws.{Ends, Ends-pure, Ends-lift, Same, step_lift}
use collective_capability_ru.Exec.Steps.{step_now, step_write}
use collective_capability_ru.Residuals.{ResidualSpec, residual_id_of, build_residual}
use collective_capability_ru.Residuals.Store.{residual_path, save_residual}

pub build_residual-Same :
    ⦃env : Env⦄ {Q : Error → World → Type 0} (r : ResidualSpec) (w : World)
    → Ends (λ _ w'. Same w w') Q (build_residual r w)
unfolding build_residual
build_residual-Same r w = step_now _ _ (Ends-pure _ _ (record { files = refl; db = refl }))

module _ ⦃env : Env⦄ where
  -- What an entry has been built with.
  pub record Built (r : ResidualSpec) (residual : Dict) : Type 0 where
    pub id : get "residual_id" residual ≡ some (str (residual_id_of r))
    pub status : get "status" residual ≡ some (str "open")
    pub blocking : get "blocking" residual ≡ some (bool r.blocking)
    pub about : get "object_id" residual ≡ some (str r.object_id)

  pub build_residual-Built :
      {Q : Error → World → Type 0} (r : ResidualSpec) (w : World)
      → Ends (λ d w'. Built r d × Same w w') Q (build_residual r w)
  unfolding build_residual get
  build_residual-Built r w = step_now _ _ (
      Ends-pure _ _ (
        record { id = refl; status = refl; blocking = refl; about = refl },
        record { files = refl; db = refl },
      ))

  -- Where `save_residual` returns, an open entry lies in the file of its identifier.
  pub save_residual_open :
      (id : String) (residual : Dict) (w : World)
      → get "residual_id" residual ≡ some (str id)
      → get "status" residual ≡ some (str "open")
      → Ends
          (λ path w'.
            (residual_path id "open" ≡ ok path) × (w'.files ≡ insert path (obj residual) w.files))
          (λ e w'. Unit {0})
          (save_residual residual w)
  unfolding save_residual to_text
  save_residual_open id residual w key open_status =
      Ends-lift _ _ w
        (λ _ valid. step_lift _ _ {a = str id} (rw key refl) (
          Ends-lift _ _ w
            (λ path placed. step_write _ _ _ _ (Ends-pure _ _ (rw open_status at placed, refl)))
            (λ e fails. tt)))
        (λ e fails. tt)
