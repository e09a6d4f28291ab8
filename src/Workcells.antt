-- ===== src/Workcells.antt =====
-- workcells/protocol.py: staged collective work. This module has the stages, where the files lie and
-- how the metadata is read; the operations are in the children.
pub mod Advance
pub mod Submit
pub mod Loading
pub mod Stages
pub mod Keeping
pub mod Runs
pub mod Claims
pub mod Integrate
pub mod Grouping
pub mod Integrating
pub mod Create
pub mod Creating
use collective_capability_ru.Prelude.{
  ℕ, suc, String, Bool, Option, none, some, List, [], ◌∷◌, map, str_eq, if◌then◌else◌,
}
use collective_capability_ru.Prelude.Map.{FilePath}
use collective_capability_ru.Result.{file_not_found}
use collective_capability_ru.Json.{Json, Dict, str}
use collective_capability_ru.Json.Fields.{get}
use collective_capability_ru.Json.Python.{get_default}
use collective_capability_ru.Env.{Env, to_text}
use collective_capability_ru.Exec.{Exec, read_file, require_dict, ◌>>=◌}

-- `WORKCELL_STAGES`
abbrev pub workcell_stages : List String
workcell_stages =
    "independent_proposal" ∷ "reveal" ∷ "critique" ∷ "revision" ∷ "verification" ∷ "integration"
    ∷ []

-- `ROLE_STAGE`, in the order of `WORKCELL_ROLES`.
abbrev pub role_stages : List (String × String)
role_stages =
    ("generator", "independent_proposal")
    ∷ ("skeptic", "critique")
    ∷ ("formalizer", "revision")
    ∷ ("implementer", "revision")
    ∷ ("verifier", "verification")
    ∷ ("integrator", "integration")
    ∷ ("scheduler", "reveal")
    ∷ []

-- `WORKCELL_ROLES`
abbrev pub workcell_roles : List String
workcell_roles = map (λ r. r.0) role_stages

unfoldable pub get_elem? {ℓ} : {A : Type ℓ} → List A → ℕ → Option A
get_elem? [] i = none
get_elem? (x ∷ xs) ℕ.zero = some x
get_elem? (x ∷ xs) (suc i) = get_elem? xs i

-- `xs.index(x)`, of a text that is there.
unfoldable pub index_of : String → List String → Option ℕ
index_of x [] = none
index_of x (y ∷ ys) =
    let later = index_of x ys in
    if str_eq y x then some 0 else elim later [ none ↦ none | some i ↦ some (suc i) ]

abbrev pub workcell_file : String → FilePath
workcell_file name = "workcells" ∷ name ∷ "workcell.json" ∷ []

-- `_load_metadata`
unfoldable pub load_metadata : String → Exec Dict
unfolding read_file
load_metadata name = do
  value ← read_file (workcell_file name) (file_not_found name)
  require_dict value "workcell metadata must be a JSON object"

module _ ⦃env : Env⦄ where
  -- `str(metadata.get("current_stage", "independent_proposal"))`
  unfoldable pub current_stage : Dict → String
  unfolding to_text
  current_stage metadata =
      to_text (get_default (get "current_stage" metadata) (str "independent_proposal"))
