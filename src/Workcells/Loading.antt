-- ===== src/Workcells/Loading.antt =====
-- Reading a workcell's metadata, as a step of a block.
use collective_capability_ru.Prelude.{
  String, ◌≡◌, refl, ap, ◌∙◌, inl, inr, none, some, Option-cases,
}
use collective_capability_ru.Prelude.Map.{file_path_eq, lookup}
use collective_capability_ru.Result.{Error, err, value_error, file_not_found}
use collective_capability_ru.Json.{Json, Dict, null, bool, int, float, str, arr, obj}
use collective_capability_ru.Exec.{World, Exec, read_file, to_dict, ◌>>=◌}
use collective_capability_ru.Exec.Laws.{Ends, step}
use collective_capability_ru.Workcells.{workcell_file, load_metadata}

abbrev message : String
message = "workcell metadata must be a JSON object"

module _ (name : String) (w : World) where
  read_there :
      (v : Json)
      → lookup (workcell_file name) w.files ≡ some v
      → load_metadata name w ≡ (to_dict v message, w)
  unfolding load_metadata read_file ◌>>=◌
  read_there v h = rw (h, read_file) refl

  read_missing :
      lookup (workcell_file name) w.files ≡ none
      → load_metadata name w ≡ (err (file_not_found name), w)
  unfolding load_metadata read_file ◌>>=◌
  read_missing h = rw (h, read_file) refl

  module _ {B : Type 0} {P : B → World → Type 0} {Q : Error → World → Type 0} (f : Dict → Exec B)
      (k : (d : Dict) → lookup (workcell_file name) w.files ≡ some (obj d) → Ends P Q (f d w))
      (q : (e : Error) → Q e w) where
    fails :
        (e : Error) → load_metadata name w ≡ (err e, w) → Ends P Q ((load_metadata name >>= f) w)
    unfolding ◌>>=◌
    fails e h = rw h (record { outcome = q e })

    other :
        (v : Json)
        → lookup (workcell_file name) w.files ≡ some v
        → to_dict v message ≡ err (value_error message)
        → Ends P Q ((load_metadata name >>= f) w)
    other v h r = fails _ (read_there v h ∙ ap (λ x. (x, w)) r)

    found :
        (v : Json)
        → lookup (workcell_file name) w.files ≡ some v
        → Ends P Q ((load_metadata name >>= f) w)
    unfolding to_dict
    found (obj d) h = step _ _ (read_there (obj d) h) (k d h)
    found null h = other null h refl
    found (bool b) h = other (bool b) h refl
    found (int n) h = other (int n) h refl
    found (float x) h = other (float x) h refl
    found (str s) h = other (str s) h refl
    found (arr xs) h = other (arr xs) h refl

    -- The block goes on with the dictionary of the file, or ends with an error where it was.
    pub step_load : Ends P Q ((load_metadata name >>= f) w)
    step_load = elim (Option-cases (lookup (workcell_file name) w.files)) [
      | inl absent ↦ fails _ (read_missing absent)
      | inr (v, there) ↦ found v there
    ]
