-- ===== src/Operations/Nonces.antt =====
-- The nonces of the registry: one is registered once.
use collective_capability_ru.Prelude.{
  ℕ, Option, List, [], ◌∷◌, sym, ◌∙◌, subst, String, ◌≡◌, refl, ap, true, not, arith, eq_refl,
  eq_iff,
}
use collective_capability_ru.Env.{Env}
use collective_capability_ru.Operations.Registry.{Verdict, refused, consumed, use_once}
use collective_capability_ru.Operations.Uses.{UseOutcome, use_once_refines}
use collective_capability_ru.Result.{Result, ok, err, value_error, ok_inj, bind_ok, require}
use collective_capability_ru.Json.{Json, Dict, end, entry, str, obj}
use collective_capability_ru.Json.Fields.{set, contains, get-set}
use collective_capability_ru.Operations.{dict_at, found_dict}
use collective_capability_ru.Operations.Create.{register}

contains-set : (k : String) (v : Json) (d : Dict) → contains k (set k v d) ≡ true
unfolding contains set
contains-set k v end = ground (arith, eq_refl k)
contains-set k v (entry j w d) = ground (arith, eq_refl k, contains-set k v d)

contains-set_any :
    (k j : String) (v : Json) (d : Dict) → contains k d ≡ true → contains k (set j v d) ≡ true
unfolding contains set
contains-set_any k j v end h = cc
contains-set_any k j v (entry i x d) h =
    ground (arith, eq_iff i k, eq_iff i j, eq_iff j k, contains-set_any k j v d)

-- The nonce is in the registry.
abbrev Registered : String → Dict → Type 0
Registered nonce registry =
    (nonces : Dict) × (dict_at "nonces" registry ≡ ok nonces) × (contains nonce nonces ≡ true)

nonces_after :
    (approvals nonces registry : Dict)
    → dict_at "nonces" (set "approvals" (obj approvals) (set "nonces" (obj nonces) registry))
      ≡ ok nonces
unfolding dict_at found_dict
nonces_after approvals nonces registry = simp get-set

register-Refused :
    (nonce id : String) (approval registry : Dict) (current : String)
    → Registered nonce registry
    → register nonce id approval registry current
      ≡ err (value_error "approval nonce already registered")
unfolding register
register-Refused nonce id approval registry current (nonces, at, there) = rw (at, there) refl

-- A registration that goes through leaves its nonce in the registry, and every nonce that was.
register-Registered :
    (nonce id : String) (approval registry registry' : Dict) (current : String) (u : Unit {0})
    → register nonce id approval registry current ≡ ok (registry', u)
    → Registered nonce registry' × ((n : String) → Registered n registry → Registered n registry')
unfolding register
register-Registered nonce id approval registry registry' current u h =
    let (nonces, at, h_1) = bind_ok (dict_at "nonces" registry) _ h in
    let (_, _, h_2) = bind_ok (require (not (contains nonce nonces)) _) _ h_1 in
    let (approvals, _, h_3) = bind_ok (dict_at "approvals" registry) _ h_2 in
    subst (λ r. Registered nonce r × ((n : String) → Registered n registry → Registered n r))
      (ap (λ x. x.0) (ok_inj h_3))
      (
        (set nonce (str id) nonces, nonces_after _ _ registry, contains-set nonce (str id) nonces),
        λ n (before, found, there). (
          set nonce (str id) nonces,
          nonces_after _ _ registry,
          contains-set_any n nonce (str id) nonces
              (subst (λ d. contains n d ≡ true) (ok_inj (sym found ∙ at)) there),
        ),
      )

-- The edits of operations/approval.py on the registry: a registration, or a use of an approval.
pub data Edit : Type 0 where
  registration : (nonce id : String) (approval : Dict) (current : String) → Edit
  presented : (id : String) (approval : Dict) (expiry : Option ℕ) (current : String) → Edit

-- An edit that raises leaves the registry as it was.
abbrev pub kept : {A : Type 0} → Dict → Result (Dict × A) → Dict
kept registry (ok (registry', _)) = registry'
kept registry (err e) = registry

module _ ⦃env : Env⦄ where
  abbrev pub edited : Edit → Dict → Dict
  edited (registration nonce id approval current) registry =
      kept registry (register nonce id approval registry current)
  edited (presented id approval expiry current) registry =
      kept registry (use_once id approval expiry registry current)

  unfoldable pub edit_all : List Edit → Dict → Dict
  edit_all [] registry = registry
  edit_all (e ∷ edits) registry = edit_all edits (edited e registry)

  registration-kept :
      (n : String) (registry : Dict) (r : Result (Dict × Unit {0}))
      → Registered n registry
      → ((registry' : Dict) (u : Unit {0}) → r ≡ ok (registry', u) → Registered n registry')
      → Registered n (kept registry r)
  registration-kept n registry (ok (registry', u)) before after = after registry' u refl
  registration-kept n registry (err e) before after = before

  use-kept :
      (n id : String) (approval registry : Dict) (expiry : Option ℕ) (current : String)
      (r : Result (Dict × Verdict))
      → Registered n registry
      → ((registry' : Dict) (v : Verdict)
          → r ≡ ok (registry', v)
          → UseOutcome id approval expiry current registry registry' v)
      → Registered n (kept registry r)
  use-kept n id approval registry expiry current (ok (registry', refused f a)) before after =
      subst (Registered n) (sym (after registry' (refused f a) refl)) before
  use-kept n id approval registry expiry current (ok (registry', consumed a)) (nonces, at, there)
        after =
      (nonces, (after registry' (consumed a) refl).nonces ∙ at, there)
  use-kept n id approval registry expiry current (err e) before after = before

  edited-Registered :
      (n : String) (e : Edit) (registry : Dict)
      → Registered n registry
      → Registered n (edited e registry)
  edited-Registered n (registration nonce id approval current) registry before =
      registration-kept n registry _ before (λ registry' u h.
        (register-Registered nonce id approval registry registry' current u h).1 n before)
  edited-Registered n (presented id approval expiry current) registry before =
      use-kept n id approval registry expiry current _ before
        (λ registry' v h. use_once_refines id approval expiry current registry registry' v h)

  edit_all-Registered :
      (n : String) (edits : List Edit) (registry : Dict)
      → Registered n registry
      → Registered n (edit_all edits registry)
  unfolding edit_all
  edit_all-Registered n [] registry before = before
  edit_all-Registered n (e ∷ edits) registry before =
      edit_all-Registered n edits (edited e registry) (edited-Registered n e registry before)

  -- Once an approval has been registered under a nonce, and whatever registrations and uses of
  -- approvals follow, each going through or refused, every later registration under that nonce, of
  -- whatever approval, is refused.
  pub nonce_registered_once :
      (nonce id id' : String) (approval approval' registry registry' : Dict)
      (current current' : String) {u : Unit {0}}
      → register nonce id approval registry current ≡ ok (registry', u)
      → (edits : List Edit)
      → register nonce id' approval' (edit_all edits registry') current'
        ≡ err (value_error "approval nonce already registered")
  nonce_registered_once nonce id id' approval approval' registry registry' current current' {u} h
        edits =
      register-Refused nonce id' approval' (edit_all edits registry') current' (
        edit_all-Registered nonce edits registry'
          (register-Registered nonce id approval registry registry' current u h).0)
