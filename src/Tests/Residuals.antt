-- ===== src/Tests/Residuals.antt =====
-- Examples for residuals/lifecycle.py: one residual, assigned to `ann`, verified by `vic`.
use collective_capability_ru.Prelude.{String, ◌≡◌, refl, true, some, ◌++◌, [], ◌∷◌, arith, eq_refl}
use collective_capability_ru.Prelude.Map.{file_path_eq, lookup}
use collective_capability_ru.Result.{ok}
use collective_capability_ru.Json.{Dict, bool, str, obj, end, dict}
use collective_capability_ru.Json.Fields.{get}
use collective_capability_ru.Exec.{World}
use collective_capability_ru.Exec.Laws.{Ends, Same}
use collective_capability_ru.Ids.{validate_identifier}
use collective_capability_ru.Residuals.Lifecycle.{
  Evidence, workflow_of, assign_residual, review_residual, resolve_residual, reopen_residual,
}
use collective_capability_ru.Residuals.Lifecycle.Refines.{
  residual_file, Filed, Indexed, Works, IsIndexable, elements, one_object, open_residual_refines,
  reopen_residual_refines,
}
use collective_capability_ru.Residuals.Lifecycle.Resolving.{
  Repaired, ResolveFails, resolve_residual_refines,
}
use collective_capability_ru.Tests.Setup.{test_env, world_of, file_name}

abbrev residual : String → Dict
residual status = dict (
    ("residual_id", str "t1")
    ∷ ("status", str status)
    ∷ ("extensions", obj (dict (("workflow", obj (dict (("assignee", str "ann") ∷ []))) ∷ [])))
    ∷ [])

abbrev root : String → World
root status = world_of ((residual_file status "t1.json", obj (residual status)) ∷ []) []

filed : (status : String) → Filed "t1.json" status (residual status) (root status).files
unfolding lookup
filed status s = ground (arith, eq_refl "t1.json")

key : (status : String) → get "residual_id" (residual status) ≡ some (str "t1")
unfolding get
key status = refl

valid : validate_identifier "t1" "residual_id" ≡ ok "t1"
unfolding validate_identifier
valid = refl

columns : (status : String) → IsIndexable (residual status)
unfolding get
columns status = record { kind = refl; object_type = refl; object_id = refl }

abbrev evidence : Evidence
evidence = record {
  artifact = "fix.patch";
  artifact_sha256 = some "ab12";
  verifier = "report.json";
  verifier_data = ok (
      obj (
        dict (
          ("accepted", bool true)
          ∷ ("verifier_id", str "vic")
          ∷ ("artifact_sha256", str "ab12")
          ∷ [])));
}

open_residual_refines_example :
    Ends
      (λ r' w'.
        Indexed "t1" "t1.json" "open" r' w'
        × Works "t1" "t1.json"
            (residual "open")
            (root "open")
            valid
            file_name
            (key "open")
            (columns "open")
            "assigned"
            "assignee"
            "bob"
            r')
      (λ e w'. ⊥)
      (assign_residual "t1" "bob" (root "open"))
    × Ends
        (λ r' w'.
          Indexed "t1" "t1.json" "open" r' w'
          × Works "t1" "t1.json"
              (residual "open")
              (root "open")
              valid
              file_name
              (key "open")
              (columns "open")
              "under_review"
              "reviewer"
              "bob"
              r')
        (λ e w'. ⊥)
        (review_residual "t1" "bob" (root "open"))
unfolding get
open_residual_refines_example =
    open_residual_refines "t1" "t1.json" (residual "open") (root "open") valid file_name
      (key "open") (columns "open") "bob" (filed "open") refl

reopen_residual_refines_example :
    Ends
      (λ r' w'.
        Indexed "t1" "t1.json" "open" r' w'
        × (get "resolution" r' ≡ some (obj end))
        × (elements (get "resolution_history" (workflow_of r'))
            ≡ elements (get "resolution_history" (workflow_of (residual "resolved")))
              ++ one_object (get "resolution" (residual "resolved"))))
      (λ e w'. ⊥)
      (reopen_residual "t1" "not fixed" (root "resolved"))
unfolding get
reopen_residual_refines_example =
    reopen_residual_refines "t1" "t1.json" (residual "resolved") (root "resolved") valid file_name
      (key "resolved") (columns "resolved") "not fixed" (filed "resolved")

resolve_residual_refines_example :
    Ends
      (λ r' w'.
        Indexed "t1" "t1.json" "resolved" r' w'
        × Repaired "t1" "t1.json" evidence
            (residual "open")
            (root "open")
            valid
            file_name
            (key "open")
            (filed "open")
            (columns "open")
            r')
      (λ x w'.
        Same (root "open") w'
        × ResolveFails "t1" "t1.json" evidence
            (residual "open")
            (root "open")
            valid
            file_name
            (key "open")
            (filed "open")
            (columns "open")
            x)
      (resolve_residual "t1" evidence (root "open"))
unfolding get
resolve_residual_refines_example =
    resolve_residual_refines "t1" "t1.json" evidence (residual "open") (root "open") valid file_name
      (key "open") (filed "open") (columns "open")
