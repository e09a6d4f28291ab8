-- ===== src/Workcells/Integrating.antt =====
-- `integrate_workcell`: what it leaves where it returns.
use collective_capability_ru.Prelude.{
  String, ◌≡◌, refl, sym, ap, ◌∙◌, true, false, ◌||◌, some, inl, inr, Bool-cases, List, [], ◌∷◌,
  ◌++◌, arith, eq_refl, elem,
}
use collective_capability_ru.Prelude.Map.{
  FilePath, file_path_eq, path_eq, lookup, insert, lookup-insert, lookup-insert_self,
  lookup-insert_other,
}
use collective_capability_ru.Prelude.Sorted.{sorted_set, elem-sorted_set}
use collective_capability_ru.Result.{ok, bind_ok, ok_inj}
use collective_capability_ru.Json.{Json, Dict, bool, str, arr, obj, strings}
use collective_capability_ru.Json.Fields.{get, get-set}
use collective_capability_ru.Env.{Env, to_text}
use collective_capability_ru.Exec.{World}
use collective_capability_ru.Exec.Laws.{Ends, Ends-pure, Ends-lift, Ends-bind, Ends-if, step_gets}
use collective_capability_ru.Exec.Steps.{step_now, step_write, stamp, tick, written}
use collective_capability_ru.Ids.{json_file_name, validate_identifier}
use collective_capability_ru.Residuals.{ResidualSpec, residual_id_of}
use collective_capability_ru.Residuals.Building.{build_residual-Built, save_residual_open}
use collective_capability_ru.Residuals.Store.{residual_path}
use collective_capability_ru.Workcells.{workcell_file, current_stage}
use collective_capability_ru.Workcells.Claims.{Gathered, distinct_texts}
use collective_capability_ru.Workcells.Integrate.{
  is_contradicted, conflict_residual, save_new, save_early, save_conflicts, early_residual,
  protocol_complete, integration_file, integrated, integrate_workcell,
}
use collective_capability_ru.Workcells.Loading.{step_load}

-- An open residual that blocks the workcell, at this path.
pub record BlockedAt (name id : String) (w : World) : Type 0 where
  pub path : FilePath
  pub placed : residual_path id "open" ≡ ok path
  pub residual : Dict
  pub there : lookup path w.files ≡ some (obj residual)
  pub blocking : get "blocking" residual ≡ some (bool true)
  pub about : get "object_id" residual ≡ some (str name)

open_shape :
    (id : String) (path : FilePath)
    → residual_path id "open" ≡ ok path
    → (file : String) × (path ≡ "residuals" ∷ "open" ∷ file ∷ [])
unfolding residual_path
open_shape id path h =
    let (_, e_1, h_1) = bind_ok (validate_identifier id "residual_id") _ h in
    let (_, e_2, h_2) = bind_ok (validate_identifier "open" "residual_status") _ h_1 in
    let (file, e_3, h_3) = bind_ok (json_file_name id) _ h_2 in (file, sym (ok_inj h_3))

elem-append : (t : String) (xs ys : List String) → elem t (xs ++ ys) ≡ (elem t xs || elem t ys)
elem-append t [] ys = refl
elem-append t (x ∷ xs) ys = ground (arith, elem-append t xs ys)

-- A text of the middle part is in the sorted set of all three.
elem_middle :
    (t : String) (xs ys zs : List String)
    → elem t ys ≡ true
    → elem t (sorted_set (xs ++ (ys ++ zs))) ≡ true
elem_middle t xs ys zs h =
    elem-sorted_set t (xs ++ (ys ++ zs))
    ∙ ground (arith, elem-append t xs (ys ++ zs), elem-append t ys zs)

-- A write to a file of the workcell leaves it.
blocked_beside :
    (name id file : String) (rest : FilePath) (v : Json) (w w' : World)
    → w'.files ≡ insert ("workcells" ∷ file ∷ rest) v w.files
    → BlockedAt name id w
    → BlockedAt name id w'
blocked_beside name id file rest v w w' e b =
    let (shown, shape) = open_shape id b.path b.placed in
    record {
      path = b.path;
      placed = b.placed;
      residual = b.residual;
      there =
          ap (lookup b.path) e
          ∙ lookup-insert_other ("workcells" ∷ file ∷ rest) b.path v w.files (rw shape refl)
          ∙ b.there;
      blocking = b.blocking;
      about = b.about;
    }

-- So does a write of another open residual that blocks the workcell, in its place or beside it.
blocked_over :
    (name id : String) (path : FilePath) (r : Dict) (w w' : World)
    → w'.files ≡ insert path (obj r) w.files
    → get "blocking" r ≡ some (bool true)
    → get "object_id" r ≡ some (str name)
    → BlockedAt name id w
    → BlockedAt name id w'
blocked_over name id path r w w' e blocking about b = elim (Bool-cases (path_eq path b.path)) [
  | inl here ↦ record {
    path = b.path;
    placed = b.placed;
    residual = r;
    there = ap (lookup b.path) e ∙ ground (arith, lookup-insert path b.path (obj r) w.files, here);
    blocking = blocking;
    about = about;
  }
  | inr beside ↦ record {
    path = b.path;
    placed = b.placed;
    residual = b.residual;
    there = ap (lookup b.path) e ∙ lookup-insert_other path b.path _ _ beside ∙ b.there;
    blocking = b.blocking;
    about = b.about;
  }
]

module _ ⦃env : Env⦄ (name : String) where
  abbrev Kept : World → World → Type 0
  Kept w w' = (id : String) → BlockedAt name id w → BlockedAt name id w'

  -- A residual of this workcell that blocks.
  record Blocks (spec : ResidualSpec) : Type 0 where
    blocking : spec.blocking ≡ true
    about : spec.object_id ≡ name

  -- Saving such a residual puts it there, and keeps those that are there.
  save_new-BlockedAt :
      (spec : ResidualSpec) (w : World)
      → Blocks spec
      → Ends (λ id w'. BlockedAt name id w' × Kept w w') (λ e w'. Unit {0}) (save_new spec w)
  unfolding save_new to_text
  save_new-BlockedAt spec w b =
      Ends-bind _ _ _ (build_residual-Built spec w) (λ r w_1 (built, same).
        Ends-bind _ _ _ (save_residual_open (residual_id_of spec) r w_1 built.id built.status)
          (λ path w_2 (placed, stored). Ends-pure _ _ (
            record {
              path = path;
              placed = rw built.id placed;
              residual = r;
              there = ap (lookup path) stored ∙ lookup-insert_self _ _ _;
              blocking = built.blocking ∙ ap (λ x. some (bool x)) b.blocking;
              about = built.about ∙ ap (λ x. some (str x)) b.about;
            },
            λ i there.
                blocked_over name i path r w w_2 (stored ∙ ap (insert path (obj r)) same.files)
                  (built.blocking ∙ ap (λ x. some (bool x)) b.blocking)
                  (built.about ∙ ap (λ x. some (str x)) b.about) there,
          )))

  early_there :
      (stage : String) (w : World)
      → Ends
          (λ ids w'.
            Kept w w'
            × (protocol_complete stage ≡ false
                → (id : String) × (elem id ids ≡ true) × BlockedAt name id w'))
          (λ e w'. Unit {0})
          (save_early name stage w)
  unfolding save_early
  early_there stage w =
      Ends-if (protocol_complete stage) _ _ w
        (λ complete. Ends-pure _ _ (λ id b. b, λ incomplete. cc))
        (λ incomplete.
          Ends-bind _ _ _
            (save_new-BlockedAt (early_residual name) w (record { blocking = refl; about = refl }))
            (λ id w' (there, kept). Ends-pure _ _ (kept, λ _. (id, simp eq_refl, there))))

  conflicts-Kept :
      (claims : List Gathered) (w : World)
      → Ends (λ _ w'. Kept w w') (λ e w'. Unit {0}) (save_conflicts name claims w)
  unfolding save_conflicts
  conflicts-Kept [] w = Ends-pure _ _ (λ id b. b)
  conflicts-Kept (claim ∷ claims) w =
      Ends-if (is_contradicted (distinct_texts claim.contradictions)) _ _ w
        (λ _.
          Ends-bind _ _ _
            (save_new-BlockedAt (conflict_residual name claim) w
              (record { blocking = refl; about = refl }))
            (λ id w_1 (_, kept).
              Ends-bind _ _ _ (conflicts-Kept claims w_1)
                (λ ids w_2 more. Ends-pure _ _ (λ i b. more i (kept i b)))))
        (λ _. conflicts-Kept claims w)

  -- The state once the metadata is at the last stage.
  abbrev marked : Dict → World → World
  marked metadata w = written (workcell_file name) (obj (integrated (stamp w) metadata)) (tick w)

  -- The state and the report after an integration.
  pub record Reported (w : World) (report : Dict) (w' : World) : Type 0 where
    pub metadata : Dict
    pub there : lookup (workcell_file name) w.files ≡ some (obj metadata)
    pub after : Dict
    pub stored : lookup (workcell_file name) w'.files ≡ some (obj after)
    pub says : get "current_stage" after ≡ some (str "integration")
    pub kept : lookup (integration_file name) w'.files ≡ some (obj report)
    pub settled : get "settled" report ≡ some (bool false)
    pub complete :
        get "protocol_complete" report ≡ some (bool (protocol_complete (current_stage metadata)))
    pub preserved : List String
    pub lists : get "open_residuals_preserved" report ≡ some (arr (strings preserved))
    pub blocked :
        protocol_complete (current_stage metadata) ≡ false
        → (id : String) × (elem id preserved ≡ true) × BlockedAt name id w'

  -- Where `integrate_workcell` returns: the workcell is at the last stage, the stored report is the
  -- one that is returned, it settles nothing, and it says whether the stage before was one of the
  -- last two; if it was not, an open residual that blocks the workcell is there and in the report.
  pub integrate_workcell_refines :
      (strategy : String) (w : World)
      → Ends
          (λ report w'. Reported w report w')
          (λ e w'. Unit {0})
          (integrate_workcell name strategy w)
  unfolding integrate_workcell get
  integrate_workcell_refines strategy w =
      Ends-lift _ _ w
        (λ _ valid.
          Ends-lift _ _ w
            (λ _ supported.
              step_load name w _
                (λ metadata there. step_gets _ _ refl (
                  Ends-lift _ _ w
                    (λ claims gathered.
                      Ends-bind _ _ _ (early_there (current_stage metadata) w)
                        (λ early w_1 (_, blocked).
                          Ends-bind _ _ _ (conflicts-Kept claims w_1) (λ conflicts w_2 keeps.
                            step_gets _ _ refl (
                              step_now _ _ (
                                step_write _ _ _ _ (
                                  Ends-lift _ _ _
                                    (λ ids listed. step_write _ _ _ _ (
                                      Ends-pure _ _ (record {
                                        metadata = metadata;
                                        there = there;
                                        after = integrated (stamp w_2) metadata;
                                        stored =
                                            lookup-insert_other (integration_file name)
                                              (workcell_file name) _ _ (simp eq_refl)
                                            ∙ lookup-insert_self _ _ _;
                                        says = simp get-set;
                                        kept = lookup-insert_self _ _ _;
                                        settled = refl;
                                        complete = refl;
                                        preserved = sorted_set (ids ++ (early ++ conflicts));
                                        lists = refl;
                                        blocked = λ incomplete.
                                            let (id, listed_early, b) = blocked incomplete in
                                            (
                                              id,
                                              elem_middle id ids early conflicts listed_early,
                                              blocked_beside name id name _ _ (marked metadata w_2)
                                                  _ refl
                                                  (blocked_beside name id name _ _ w_2
                                                    (marked metadata w_2) refl (keeps id b)),
                                            );
                                      })))
                                    (λ e fails. tt)))))))
                    (λ e fails. tt)))
                (λ e. tt))
            (λ e fails. tt))
        (λ e fails. tt)
