-- ===== src/Residuals/Lifecycle/Refines.antt =====
-- What the operations of residuals/lifecycle.py leave, on a residual that lies in one queue.
use mathlib.Core.List.{append-nil}
use collective_capability_ru.Prelude.{
  String, ◌≡◌, refl, sym, ◌∙◌, ap, ◌++◌, true, false, Option, none, some, List, [], ◌∷◌, arith,
  eq_iff, eq_refl, str_eq, if◌then◌else◌,
}
use collective_capability_ru.Prelude.Map.{
  FilePath, string_eq, file_path_eq, lookup, insert, erase, lookup-insert, lookup-erase,
}
use collective_capability_ru.Result.{Error, ok}
use collective_capability_ru.Json.{end, Json, Items, Dict, str, arr, obj, nil, cons}
use collective_capability_ru.Json.Fields.{get, get-set}
use collective_capability_ru.Env.{Env}
use collective_capability_ru.Exec.{World, ResidualRow}
use collective_capability_ru.Exec.Laws.{Ends, Ends-pure, Ends-bind, Ends-transaction, step_lift}
use collective_capability_ru.Exec.Steps.{
  tick, step_now, step_read, step_write, step_unlink, to_dict-obj,
}
use collective_capability_ru.Exec.Columns.{bind_all, bindable}
use collective_capability_ru.Ids.{json_file_name, validate_identifier}
use collective_capability_ru.Residuals.Store.{residual_path}
use collective_capability_ru.Residuals.Lifecycle.{
  workflow_of, append_json, list_or_nil, append_object, history_with, index, insert_row,
  update_body, update_open_workflow, assign_residual, review_residual, reopen_body, reopen_residual,
}

abbrev pub residual_file : String → String → FilePath
residual_file status name = "residuals" ∷ status ∷ name ∷ []

-- Of the directories of residuals, only that of `status` has a file of this name.
abbrev pub Filed : String → String → Dict → List (FilePath × Json) → Type 0
Filed name status residual files =
    (s : String)
    → lookup (residual_file s name) files ≡ (if str_eq status s then some (obj residual) else none)

pub filed_there :
    (name s : String) (r : Dict) (files : List (FilePath × Json))
    → Filed name s r files
    → lookup (residual_file s name) files ≡ some (obj r)
filed_there name s r files h = ground (arith, h s, eq_refl s)

filed_again :
    (name s : String) (r r' : Dict) (files : List (FilePath × Json))
    → Filed name s r files
    → Filed name s r' (insert (residual_file s name) (obj r') files)
filed_again name s r r' files h t = ground (
  arith,
  lookup-insert (residual_file s name) (residual_file t name) (obj r') files,
  h t,
  eq_refl name,
)

pub filed_over :
    (name s d : String) (r r' : Dict) (files : List (FilePath × Json))
    → str_eq s d ≡ false
    → Filed name s r files
    → Filed name d r' (erase (residual_file s name) (insert (residual_file d name) (obj r') files))
filed_over name s d r r' files ne h t = ground (
  arith,
  lookup-insert (residual_file d name) (residual_file t name) (obj r') files,
  lookup-erase (residual_file s name) (residual_file t name)
      (insert (residual_file d name) (obj r') files),
  h t,
  eq_refl name,
  eq_iff s t,
  eq_iff d t,
  eq_iff s d,
)

-- The status in the row of `id`.
abbrev pub row_status : String → World → Option Json
row_status id w = elim (lookup id w.db.residuals) [ none ↦ none | some row ↦ some row.status ]

-- A residual in the queue of its status, with a row that agrees.
pub record Indexed (id name status : String) (r : Dict) (w : World) : Type 0 where
  pub filed : Filed name status r w.files
  pub says : get "status" r ≡ some (str status)
  pub row : row_status id w ≡ some (str status)

row_status-insert :
    (id : String) (row : ResidualRow) (w : World)
    → row_status id (record w { db = record w.db { residuals = insert id row w.db.residuals } })
      ≡ some row.status
row_status-insert id row w = ground (arith, lookup-insert id id row w.db.residuals, eq_refl id)

-- SQLite can bind the fields that the row takes from the residual as they are.
pub record IsIndexable (r : Dict) : Type 0 where
  pub kind : bindable (get "kind" r) ≡ true
  pub object_type : bindable (get "object_type" r) ≡ true
  pub object_id : bindable (get "object_id" r) ≡ true

-- The elements of a list of JSON values; of any other value there are none.
abbrev pub elements_of : Items → List Json
elements_of nil = []
elements_of (cons x xs) = x ∷ elements_of xs

abbrev pub elements : Option Json → List Json
elements (some (arr xs)) = elements_of xs
elements _ = []

-- The resolution, if it is an object.
abbrev pub one_object : Option Json → List Json
one_object (some (obj d)) = obj d ∷ []
one_object _ = []

elements_of-append_json :
    (xs : Items) (v : Json) → elements_of (append_json xs v) ≡ elements_of xs ++ (v ∷ [])
unfolding append_json
elements_of-append_json nil v = refl
elements_of-append_json (cons x xs) v = ap (λ ys. x ∷ ys) (elements_of-append_json xs v)

elements_of-list_or_nil : (old : Option Json) → elements_of (list_or_nil old) ≡ elements old
unfolding list_or_nil
elements_of-list_or_nil (some (arr xs)) = refl
elements_of-list_or_nil _ = refl

elements_of-append_object :
    (xs : Items) (previous : Option Json)
    → elements_of (append_object xs previous) ≡ elements_of xs ++ one_object previous
unfolding append_object
elements_of-append_object xs (some (obj d)) = elements_of-append_json xs (obj d)
elements_of-append_object xs _ = sym (append-nil (elements_of xs))

elements_of-history_with :
    (old previous : Option Json)
    → elements_of (history_with old previous) ≡ elements old ++ one_object previous
unfolding history_with
elements_of-history_with old previous =
    elements_of-append_object (list_or_nil old) previous
    ∙ ap (λ ys. ys ++ one_object previous) (elements_of-list_or_nil old)

module _ ⦃env : Env⦄ {Q : Error → World → Type 0} where
  pub index-Ends :
      (id status : String) (r : Dict) (w : World)
      → get "residual_id" r ≡ some (str id)
      → get "status" r ≡ some (str status)
      → IsIndexable r
      → Ends (λ _ w'. (w'.files ≡ w.files) × (row_status id w' ≡ some (str status))) Q (index r w)
  unfolding index insert_row bind_all
  index-Ends id status r w key says columns = step_lift _ _ {a = id} (rw key refl) (
      step_lift _ _ {a = str status} (rw says refl) (
        step_now _ _ (
          step_lift _ _ {a = tt} (rw (columns.kind, columns.object_type, columns.object_id) refl)
            (record { outcome = (refl, row_status-insert id _ (tick w)) }))))

status_open : validate_identifier "open" "residual_status" ≡ ok "open"
unfolding validate_identifier
status_open = refl

status_resolved : validate_identifier "resolved" "residual_status" ≡ ok "resolved"
unfolding validate_identifier
status_resolved = refl

module _ ⦃env : Env⦄ (id name : String) (r : Dict) (w : World)
    (valid : validate_identifier id "residual_id" ≡ ok id) (named : json_file_name id ≡ ok name)
    (key : get "residual_id" r ≡ some (str id)) (columns : IsIndexable r) where
  pub open_path : residual_path id "open" ≡ ok (residual_file "open" name)
  unfolding residual_path
  open_path = rw (valid, named, status_open) refl

  pub resolved_path : residual_path id "resolved" ≡ ok (residual_file "resolved" name)
  unfolding residual_path
  resolved_path = rw (valid, named, status_resolved) refl

  -- The state of the workflow, and who acts in it.
  abbrev pub Works : String → String → String → Dict → Type 0
  Works state actor_key actor r' =
      (get "state" (workflow_of r') ≡ some (str state))
      × (get actor_key (workflow_of r') ≡ some (str actor))

  updated-Ends :
      (state actor_key actor : String)
      → Filed name "open" r w.files
      → get "status" r ≡ some (str "open")
      → str_eq "state" actor_key ≡ false
      → str_eq "updated_at" actor_key ≡ false
      → Ends
          (λ r' w'. Indexed id name "open" r' w' × Works state actor_key actor r')
          (λ e w'. ⊥)
          (update_open_workflow id state actor_key actor w)
  unfolding update_open_workflow update_body
  updated-Ends state actor_key actor filed says p q = step_lift _ _ valid (
      Ends-transaction _ w (
        step_lift _ _ open_path (
          step_read _ _ _ _ (filed_there name "open" r w.files filed) (
            step_lift _ _ (to_dict-obj _ _) (
              step_now _ _ (
                step_now _ _ (
                  step_write _ _ _ _ (
                    Ends-bind _ _ _
                      (index-Ends id "open" _ _ (simp get-set key) (simp get-set says) (record {
                        kind = simp get-set columns.kind;
                        object_type = simp get-set columns.object_type;
                        object_id = simp get-set columns.object_id;
                      }))
                      (λ _ w' (kept, row). Ends-pure _ _ (
                        record {
                          filed = rw kept (filed_again name "open" r _ w.files filed);
                          says = simp get-set says;
                          row = row;
                        },
                        (simp get-set, simp (get-set, p, q, eq_refl)),
                      ))))))))))

  -- `assign_residual` succeeds on an open residual, names the assignee in its workflow, and leaves
  -- file and row in agreement.
  assign_residual_refines :
      (agent : String)
      → Filed name "open" r w.files
      → get "status" r ≡ some (str "open")
      → Ends
          (λ r' w'. Indexed id name "open" r' w' × Works "assigned" "assignee" agent r')
          (λ e w'. ⊥)
          (assign_residual id agent w)
  unfolding assign_residual
  assign_residual_refines agent filed says =
      updated-Ends "assigned" "assignee" agent filed says refl refl

  -- `review_residual` succeeds on an open residual, names the reviewer in its workflow, and leaves
  -- file and row in agreement.
  review_residual_refines :
      (reviewer : String)
      → Filed name "open" r w.files
      → get "status" r ≡ some (str "open")
      → Ends
          (λ r' w'. Indexed id name "open" r' w' × Works "under_review" "reviewer" reviewer r')
          (λ e w'. ⊥)
          (review_residual id reviewer w)
  unfolding review_residual
  review_residual_refines reviewer filed says =
      updated-Ends "under_review" "reviewer" reviewer filed says refl refl

  -- On an open residual whose kind, object type and object id SQLite can bind, `assign_residual` and `review_residual` each succeed: the one names the
  -- assignee and the other the reviewer in its workflow, and both leave file and row in agreement.
  pub open_residual_refines :
      (agent : String)
      → Filed name "open" r w.files
      → get "status" r ≡ some (str "open")
      → Ends
          (λ r' w'. Indexed id name "open" r' w' × Works "assigned" "assignee" agent r')
          (λ e w'. ⊥)
          (assign_residual id agent w)
        × Ends
            (λ r' w'. Indexed id name "open" r' w' × Works "under_review" "reviewer" agent r')
            (λ e w'. ⊥)
            (review_residual id agent w)
  open_residual_refines agent filed says =
      (assign_residual_refines agent filed says, review_residual_refines agent filed says)

  recorded :
      (r' : Dict)
      → get "resolution_history" (workflow_of r')
        ≡ some (arr (history_with (get "resolution_history" (workflow_of r)) (get "resolution" r)))
      → elements (get "resolution_history" (workflow_of r'))
        ≡ elements (get "resolution_history" (workflow_of r)) ++ one_object (get "resolution" r)
  recorded r' h =
      rw h
        (elements_of-history_with (get "resolution_history" (workflow_of r)) (get "resolution" r))

  -- `reopen_residual` succeeds on a resolved residual whose kind, object type and object id SQLite
  -- can bind: it lies in the open queue, its resolution is empty, file and row agree, and the
  -- history holds what it held, if it was a list, and after that the old resolution, if it was an
  -- object.
  pub reopen_residual_refines :
      (reason : String)
      → Filed name "resolved" r w.files
      → Ends
          (λ r' w'.
            Indexed id name "open" r' w'
            × (get "resolution" r' ≡ some (obj end))
            × (elements (get "resolution_history" (workflow_of r'))
                ≡ elements (get "resolution_history" (workflow_of r))
                  ++ one_object (get "resolution" r)))
          (λ e w'. ⊥)
          (reopen_residual id reason w)
  unfolding reopen_residual reopen_body
  reopen_residual_refines reason filed = step_lift _ _ valid (
      Ends-transaction _ w (
        step_lift _ _ resolved_path (
          step_read _ _ _ _ (filed_there name "resolved" r w.files filed) (
            step_lift _ _ (to_dict-obj _ _) (
              step_now _ _ (
                step_lift _ _ open_path (
                  step_write _ _ _ _ (
                    step_unlink _ _ _ (
                      Ends-bind _ _ _
                        (index-Ends id "open" _ _ (simp get-set key) (simp get-set) (record {
                          kind = simp get-set columns.kind;
                          object_type = simp get-set columns.object_type;
                          object_id = simp get-set columns.object_id;
                        }))
                        (λ _ w' (kept, row). Ends-pure _ _ (
                          record {
                            filed =
                                rw kept (filed_over name "resolved" "open" r _ w.files refl filed);
                            says = simp get-set;
                            row = row;
                          },
                          simp get-set,
                          recorded _ (simp get-set),
                        )))))))))))
