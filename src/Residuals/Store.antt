-- ===== src/Residuals/Store.antt =====
-- residuals/store.py: saving residuals, and the open ones that block an object.
use Prim.Native.Nat.{Ordering}
use Prim.Native.String.{compare as compare_text}
use collective_capability_ru.Prelude.{
  String, Bool, true, false, ◌&&◌, ◌||◌, Option, none, some, List, [], ◌∷◌, str_eq, any,
  if◌then◌else◌,
}
use collective_capability_ru.Prelude.Map.{FilePath}
use collective_capability_ru.Prelude.Text.{codes, ends_with}
use collective_capability_ru.Result.{Result, ok, err, value_error, key_error, ◌>>=◌ as bind_result}
use collective_capability_ru.Json.{Json, Dict, bool, str, arr, obj, elements}
use collective_capability_ru.Json.Fields.{get}
use collective_capability_ru.Json.Python.{get_default, truthy, is_str}
use collective_capability_ru.Env.{Env, to_text}
use collective_capability_ru.Exec.{World, Exec, pure, lift, require, write_file, ◌>>=◌, ◌>>◌}
use collective_capability_ru.Ids.{json_file_name, validate_identifier}

-- `residual_path`
unfoldable pub residual_path : String → String → Result FilePath
residual_path id status = bind_result (validate_identifier id "residual_id") (λ _.
    bind_result (validate_identifier status "residual_status")
      (λ _. bind_result (json_file_name id) (λ name. ok ("residuals" ∷ status ∷ name ∷ []))))

no_errors : List String → Bool
no_errors [] = true
no_errors (_ ∷ _) = false

residual_id : Option Json → Result Json
residual_id none = err (key_error "residual_id")
residual_id (some id) = ok id

module _ ⦃env : Env⦄ where
  -- `save_residual`, which always overwrites where it is called here.
  unfoldable pub save_residual : Dict → Exec FilePath
  unfolding no_errors residual_id
  save_residual residual = do
    require (no_errors (env.schema_errors "residual" (obj residual)))
        (value_error "invalid residual")
    id ← lift (residual_id (get "residual_id" residual))
    path ←
        lift
          (residual_path (to_text id) (to_text (get_default (get "status" residual) (str "open"))))
    write_file path (obj residual)
    pure path

-- A file `residuals/<status>/*.json`, by its name.
abbrev pub residual_name : String → FilePath → Option String
residual_name status (a ∷ b ∷ name ∷ []) =
    if str_eq a "residuals" && str_eq b status && ends_with (codes ".json") (codes name)
    then some name
    else none
residual_name status _ = none

abbrev pub Named : Type 0
Named = String × Dict

-- `sorted(directory.glob("*.json"), key=lambda item: item.name)`
unfoldable pub insert_named : Named → List Named → List Named
insert_named x [] = x ∷ []
insert_named x (y ∷ ys) =
    let later = insert_named x ys in
    elim (compare_text x.0 y.0) [ Ordering.gt ↦ y ∷ later | _ ↦ x ∷ y ∷ ys ]

abbrev pub put_named : Option String → Json → List Named → List Named
put_named (some name) (obj d) rest = insert_named (name, d) rest
put_named _ _ rest = rest

unfoldable pub named_in : String → List (FilePath × Json) → List Named
unfolding insert_named
named_in status [] = []
named_in status ((p, v) ∷ files) = put_named (residual_name status p) v (named_in status files)

-- `object_id in refs`, of a list.
abbrev pub refs_mention : Option Json → String → Bool
refs_mention (some (arr xs)) id = any (λ x. is_str (some x) id) (elements xs)
refs_mention _ id = false

-- The test of `linked_open_blocking_residuals`.
unfoldable pub blocks : String → Dict → Bool
blocks id r =
    truthy (get_default (get "blocking" r) (bool false))
    && (is_str (get "object_id" r) id || refs_mention (get "refs" r) id)

abbrev pub blocking_of : String → List Named → List Dict
blocking_of id [] = []
blocking_of id ((name, r) ∷ rs) = if blocks id r then r ∷ blocking_of id rs else blocking_of id rs

-- `linked_open_blocking_residuals`
unfoldable pub linked_open_blocking_residuals : String → World → List Dict
unfolding named_in blocks
linked_open_blocking_residuals id w = blocking_of id (named_in "open" w.files)
