-- ===== src/Residuals/Lifecycle/Resolving.antt =====
-- `resolve_residual`: what it takes, and what it leaves.
use collective_capability_ru.Prelude.{
  subst, Option-cases, inl, inr, ◌⊎◌, String, ◌≡◌, refl, ap, ◌∙◌, Bool, true, false, not, some,
  arith,
}
use collective_capability_ru.Prelude.Map.{string_eq, file_path_eq}
use collective_capability_ru.Result.{ok_inj, Error, ok, err, bind_ok, require, require_passed}
use collective_capability_ru.Json.{null, bool, int, float, Json, Dict, str, arr, obj}
use collective_capability_ru.Json.Fields.{get, get-set}
use collective_capability_ru.Json.Python.{is_str, is_true, as_dict}
use collective_capability_ru.Env.{Env}
use collective_capability_ru.Exec.{World}
use collective_capability_ru.Exec.Laws.{
  Ends, Ends-pure, Ends-bind, Ends-lift, Ends-transaction, Same, Same-refl, step_lift,
}
use collective_capability_ru.Exec.Steps.{step_now, step_read, step_write, step_unlink, to_dict-obj}
use collective_capability_ru.Ids.{json_file_name, validate_identifier}
use collective_capability_ru.Residuals.Lifecycle.{
  object_data, artifact_digest, identity_of, Evidence, workflow_of, check_evidence, resolve_body,
  resolve_residual,
}
use collective_capability_ru.Residuals.Lifecycle.Refines.{
  Filed, Indexed, IsIndexable, filed_there, filed_over, index-Ends, open_path, resolved_path,
}

-- The evidence that lets a residual be resolved.
pub record IsEvidence (e : Evidence) (digest identity : String) : Type 0 where
  pub artifact : e.artifact_sha256 ≡ some digest
  pub shown : Dict
  pub read : e.verifier_data ≡ ok (obj shown)
  pub accepted : is_true (get "accepted" shown) ≡ true
  pub names : identity_of shown ≡ ok identity
  pub matches : is_str (get "artifact_sha256" shown) digest ≡ true

digest_read : (e : Evidence) {d : String} → artifact_digest e ≡ ok d → e.artifact_sha256 ≡ some d
unfolding artifact_digest
digest_read e h = elim (Option-cases e.artifact_sha256) [
  | inl absent ↦ cc (rw absent at h)
  | inr (d, there) ↦ there ∙ ap some (ok_inj (rw there at h))
]

object_read : (v : Json) {d : Dict} → object_data v ≡ ok d → v ≡ obj d
unfolding object_data
object_read (obj d) h = ap obj (ok_inj h)
object_read null h = cc
object_read (bool b) h = cc
object_read (int n) h = cc
object_read (float x) h = cc
object_read (str s) h = cc
object_read (arr xs) h = cc

gathered :
    (e : Evidence) (d i : String) (shown : Dict) {digest identity : String}
    → e.artifact_sha256 ≡ some d
    → e.verifier_data ≡ ok (obj shown)
    → is_true (get "accepted" shown) ≡ true
    → identity_of shown ≡ ok i
    → is_str (get "artifact_sha256" shown) d ≡ true
    → ◌≡◌ {A = String × String} (d, i) (digest, identity)
    → IsEvidence e digest identity
gathered e d i shown artifact read accepted names matches same = record {
  artifact = artifact ∙ ap some (ap (λ x. x.0) same);
  shown = shown;
  read = read;
  accepted = accepted;
  names = names ∙ ap ok (ap (λ x. x.1) same);
  matches = subst (λ x. is_str (get "artifact_sha256" shown) x ≡ true) (ap (λ x. x.0) same) matches;
}

check_evidence-IsEvidence :
    (e : Evidence) (digest identity : String)
    → check_evidence e ≡ ok (digest, identity)
    → IsEvidence e digest identity
unfolding check_evidence
check_evidence-IsEvidence e digest identity h =
    let (d, e_1, h_1) = bind_ok (artifact_digest e) _ h in
    let (value, e_2, h_2) = bind_ok e.verifier_data _ h_1 in
    let (shown, e_3, h_3) = bind_ok (object_data value) _ h_2 in
    let (_, e_4, h_4) = bind_ok (require (is_true (get "accepted" shown)) _) _ h_3 in
    let (i, e_5, h_5) = bind_ok (identity_of shown) _ h_4 in
    let (_, e_6, h_6) = bind_ok (require (is_str (get "artifact_sha256" shown) d) _) _ h_5 in
    gathered e d i shown (digest_read e e_1) (e_2 ∙ ap ok (object_read value e_3))
      (require_passed _ _ e_4) e_5 (require_passed _ _ e_6) (ok_inj h_6)

module _ ⦃env : Env⦄ (id name : String) (e : Evidence) (r : Dict) (w : World)
    (valid : validate_identifier id "residual_id" ≡ ok id) (named : json_file_name id ≡ ok name)
    (key : get "residual_id" r ≡ some (str id)) (filed : Filed name "open" r w.files)
    (columns : IsIndexable r) where
  -- The repair has evidence, by someone else than the assignee.
  abbrev pub Repaired : Dict → Type 0
  Repaired r' =
      (digest : String) × (identity : String) × IsEvidence e digest identity
      × (is_str (get "assignee" (workflow_of r)) identity ≡ false)
      × (get "verifier_id" (as_dict (get "resolution" r')) ≡ some (str identity))
      × (get "artifact_sha256" (as_dict (get "resolution" r')) ≡ some (str digest))

  -- Why it may raise: the evidence is refused, or its author is the assignee.
  abbrev pub ResolveFails : Error → Type 0
  ResolveFails x =
      (check_evidence e ≡ err x)
      ⊎ ((digest : String) × (identity : String) × (check_evidence e ≡ ok (digest, identity))
          × (is_str (get "assignee" (workflow_of r)) identity ≡ true))

  -- `resolve_residual` resolves an open residual, whose kind, object type and object id SQLite can
  -- bind, exactly on evidence that accepts the repair, names
  -- the artifact's digest and comes from another one than the assignee: the residual lies in the
  -- resolved queue then, its resolution bears the digest and the verifier, and file and row agree;
  -- otherwise it raises and changes no file and no row.
  pub resolve_residual_refines :
      Ends
        (λ r' w'. Indexed id name "resolved" r' w' × Repaired r')
        (λ x w'. Same w w' × ResolveFails x)
        (resolve_residual id e w)
  unfolding resolve_residual resolve_body get
  resolve_residual_refines = step_lift _ _ valid (
      Ends-lift _ _ w
        (λ (digest, identity) shown. Ends-transaction _ w (
          step_lift _ _ (open_path id name r w valid named key columns) (
            step_read _ _ _ _ (filed_there name "open" r w.files filed) (
              step_lift _ _ (to_dict-obj _ _) (
                Ends-lift _ _ w
                  (λ _ independent. step_now _ _ (
                    step_now _ _ (
                      step_lift _ _ (resolved_path id name r w valid named key columns) (
                        step_write _ _ _ _ (
                          step_unlink _ _ _ (
                            Ends-bind _ _ _
                              (index-Ends id "resolved" _ _ (simp get-set key) (simp get-set)
                                (record {
                                  kind = simp get-set columns.kind;
                                  object_type = simp get-set columns.object_type;
                                  object_id = simp get-set columns.object_id;
                                }))
                              (λ _ w' (kept, row). Ends-pure _ _ (
                                record {
                                  filed =
                                      rw kept
                                        (filed_over name "open" "resolved" r _ w.files refl filed);
                                  says = simp get-set;
                                  row = row;
                                },
                                (
                                  digest,
                                  identity,
                                  check_evidence-IsEvidence e digest identity shown,
                                  others _ _ independent,
                                  simp get-set,
                                  simp get-set,
                                ),
                              ))))))))
                  (λ x fails. (Same-refl w, inr (digest, identity, shown, same_one _ _ fails))))))))
        (λ x fails. (Same-refl w, inl fails)))
    where
      others : (b : Bool) (m : Error) {u : Unit {0}} → require (not b) m ≡ ok u → b ≡ false
      others b m h = ground arith

      same_one : (b : Bool) (m : Error) {x : Error} → require (not b) m ≡ err x → b ≡ true
      same_one b m h = ground arith
