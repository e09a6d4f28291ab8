-- ===== src/Operations/Uses.antt =====
-- The uses of an approval in the registry: how many calls it lets through.
use collective_capability_ru.Prelude.{
  ℕ, String, ◌≡◌, inl, inr, refl, sym, ◌∙◌, subst, true, false, not, ap, arith, Option, none, some,
  Bool-cases, str_eq,
}
use collective_capability_ru.Prelude.Int.{ℤ, pos, ◌+ℤ◌, leb_ℤ}
use collective_capability_ru.Result.{Result, ok, err, ok_inj, bind_ok}
use collective_capability_ru.Json.{Json, Dict, bool, int, float, str, arr, obj}
use collective_capability_ru.Json.Fields.{get, set, get-set, get-set_self}
use collective_capability_ru.Env.{Env}
use collective_capability_ru.Operations.{dict_at, found_dict, parse_time}
use collective_capability_ru.Operations.Registry.{
  use_counted, Verdict, refused, consumed, count_at, value_at, expired_by, use_entry, use_found,
  use_once,
}

entry_in : String → Result Dict → Option Json
entry_in id (ok approvals) = get id approvals
entry_in id (err e) = none

-- The entry of an approval in the registry.
unfoldable pub entry_of : String → Dict → Option Json
unfolding entry_in
entry_of id registry = entry_in id (dict_at "approvals" registry)

entry_of-at :
    (id : String) (registry approvals : Dict)
    → dict_at "approvals" registry ≡ ok approvals
    → entry_of id registry ≡ get id approvals
unfolding entry_of
entry_of-at id registry approvals at = rw at refl

dict_at-set : (key : String) (v d : Dict) → dict_at key (set key (obj v) d) ≡ ok v
unfolding dict_at found_dict
dict_at-set key v d = rw (get-set_self key (obj v) d) refl

module _ ⦃env : Env⦄ (id : String) (approval : Dict) (expiry : Option ℕ) (current : String)
    (registry : Dict) where
  -- A use that was taken: the count was below the maximum, and is one higher now; the approval is
  -- not over at the time of the store, and the entry records an artifact of this approval's digest.
  pub record IsUse (registry' : Dict) : Type 0 where
    pub found : Dict
    pub there : entry_of id registry ≡ some (obj found)
    pub artifact : Json
    pub recorded : get "artifact" found ≡ some artifact
    pub same : str_eq (env.sha256 artifact) (env.sha256 (obj approval)) ≡ true
    pub used : ℤ
    pub most : ℤ
    pub counted : count_at "use_count" found ≡ ok used
    pub bounded : count_at "max_uses" approval ≡ ok most
    pub below : leb_ℤ most used ≡ false
    pub in_time : expired_by expiry (parse_time (some (str current))) ≡ false
    pub after : entry_of id registry' ≡ some (obj (set "use_count" (int (used +ℤ pos 1)) found))
    pub others : (j : String) → str_eq id j ≡ false → entry_of j registry' ≡ entry_of j registry
    pub nonces : dict_at "nonces" registry' ≡ dict_at "nonces" registry

  -- What one edit does to the registry.
  abbrev pub UseOutcome : Dict → Verdict → Type 0
  UseOutcome registry' (refused failure a) = registry' ≡ registry
  UseOutcome registry' (consumed a) = IsUse registry'

  unchanged :
      (registry' : Dict) (v : Verdict) (failure : String) (a : Option Dict)
      → ◌≡◌ {A = Result (Dict × Verdict)} (ok (registry, refused failure a)) (ok (registry', v))
      → UseOutcome registry' v
  unchanged registry' v failure a h = subst (λ x. UseOutcome x.0 x.1) (ok_inj h) refl

  abbrev taken : Dict → Dict → ℤ → Dict
  taken approvals found used =
      set "approvals" (obj (set id (obj (set "use_count" (int (used +ℤ pos 1)) found)) approvals))
        registry

  get_other :
      (j : String) (approvals found : Dict) (used : ℤ)
      → str_eq id j ≡ false
      → get j (set id (obj (set "use_count" (int (used +ℤ pos 1)) found)) approvals)
        ≡ get j approvals
  get_other j approvals found used other = rw get-set (rw other refl)

  taken_nonces :
      (approvals found : Dict) (used : ℤ)
      → dict_at "nonces" (taken approvals found used) ≡ dict_at "nonces" registry
  unfolding dict_at
  taken_nonces approvals found used = simp get-set

  value_at-some : (o : Option Json) (v : Json) → value_at "artifact" o ≡ ok v → o ≡ some v
  unfolding value_at
  value_at-some none v h = cc
  value_at-some (some x) v h = ap some (ok_inj h)

  taken-IsUse :
      (approvals found : Dict) (artifact : Json) (used most : ℤ)
      → dict_at "approvals" registry ≡ ok approvals
      → get id approvals ≡ some (obj found)
      → get "artifact" found ≡ some artifact
      → str_eq (env.sha256 artifact) (env.sha256 (obj approval)) ≡ true
      → count_at "use_count" found ≡ ok used
      → count_at "max_uses" approval ≡ ok most
      → leb_ℤ most used ≡ false
      → expired_by expiry (parse_time (some (str current))) ≡ false
      → IsUse (taken approvals found used)
  taken-IsUse approvals found artifact used most at there recorded same counted bounded below
        in_time =
      record {
        artifact = artifact;
        recorded = recorded;
        same = same;
        nonces = taken_nonces approvals found used;
        found = found;
        there = entry_of-at id registry approvals at ∙ there;
        used = used;
        most = most;
        counted = counted;
        bounded = bounded;
        below = below;
        in_time = in_time;
        after =
            entry_of-at id _ _ (dict_at-set "approvals" _ registry) ∙ get-set_self id _ approvals;
        others = λ j other.
            entry_of-at j _ _ (dict_at-set "approvals" _ registry)
            ∙ (get_other j approvals found used other ∙ sym (entry_of-at j registry approvals at));
      }

  counted_lem :
      (approvals found registry' : Dict) (artifact : Json) (v : Verdict)
      → dict_at "approvals" registry ≡ ok approvals
      → get id approvals ≡ some (obj found)
      → get "artifact" found ≡ some artifact
      → str_eq (env.sha256 artifact) (env.sha256 (obj approval)) ≡ true
      → use_counted id approval expiry current registry approvals found ≡ ok (registry', v)
      → UseOutcome registry' v
  unfolding use_counted
  counted_lem approvals found registry' artifact v at there recorded same h =
      let (used, counted, h_1) = bind_ok (count_at "use_count" found) _ h in
      let (most, bounded, h_2) = bind_ok (count_at "max_uses" approval) _ h_1 in
      elim (Bool-cases (leb_ℤ most used)) [
        | inl spent ↦ unchanged _ _ _ _ (rw spent at h_2)
        | inr below ↦ elim (Bool-cases (expired_by expiry (parse_time (some (str current))))) [
          | inl over ↦ unchanged _ _ _ _ (rw (below, over) at h_2)
          | inr in_time ↦
              subst (λ x. UseOutcome x.0 x.1) (ok_inj (rw (below, in_time) at h_2))
                (taken-IsUse approvals found artifact used most at there recorded same counted
                  bounded below in_time)
        ]
      ]

  use_entry_lem :
      (approvals found registry' : Dict) (v : Verdict)
      → dict_at "approvals" registry ≡ ok approvals
      → get id approvals ≡ some (obj found)
      → use_entry id approval expiry current registry approvals found ≡ ok (registry', v)
      → UseOutcome registry' v
  unfolding use_entry
  use_entry_lem approvals found registry' v at there h =
      let (artifact, named, h_1) = bind_ok (value_at "artifact" (get "artifact" found)) _ h in
      elim (Bool-cases (not (str_eq (env.sha256 artifact) (env.sha256 (obj approval))))) [
        | inl other ↦ unchanged _ _ _ _ (rw other at h_1)
        | inr same ↦
            counted_lem approvals found registry' artifact v at there (value_at-some _ _ named)
              (ground (arith, same)) (rw same at h_1)
      ]

  use_found_lem :
      (approvals registry' : Dict) (v : Verdict) (o : Option Json)
      → dict_at "approvals" registry ≡ ok approvals
      → get id approvals ≡ o
      → use_found id approval expiry current registry approvals o ≡ ok (registry', v)
      → UseOutcome registry' v
  unfolding use_found
  use_found_lem approvals registry' v none at there h = unchanged _ _ _ _ h
  use_found_lem approvals registry' v (some (obj found)) at there h =
      use_entry_lem approvals found registry' v at there h
  use_found_lem approvals registry' v (some Json.null) at there h = unchanged _ _ _ _ h
  use_found_lem approvals registry' v (some (bool b)) at there h = cc
  use_found_lem approvals registry' v (some (int n)) at there h = cc
  use_found_lem approvals registry' v (some (float x)) at there h = cc
  use_found_lem approvals registry' v (some (str s)) at there h = cc
  use_found_lem approvals registry' v (some (arr xs)) at there h = cc

  -- Where the edit of `validate_and_consume_approval` returns, it has refused and the registry is as
  -- it was; or it has taken one use of this approval: its entry records an artifact with this
  -- approval's digest and a count below the maximum, and it was not over by the store's clock; the
  -- count is one higher now, and all other entries and the nonces are as they were.
  pub use_once_refines :
      (registry' : Dict) (v : Verdict)
      → use_once id approval expiry registry current ≡ ok (registry', v)
      → UseOutcome registry' v
  unfolding use_once
  use_once_refines registry' v h =
      let (approvals, at, h_1) = bind_ok (dict_at "approvals" registry) _ h in
      use_found_lem approvals registry' v (get id approvals) at refl h_1
