-- ===== src/Workcells/Grouping.antt =====
-- What `_integrate_claims` gathers for a claim, by the contributions that have its key.
use mathlib.Core.List.{append_assoc, append-nil}
use collective_capability_ru.Prelude.{
  String, ◌≡◌, refl, sym, ap, ◌∙◌, Option, none, some, some_inj, List, [], ◌∷◌, ◌++◌, All, map,
  length, arith, eq_iff, eq_refl, str_eq, if◌then◌else◌,
}
use collective_capability_ru.Prelude.Map.{string_eq, lookup, lookup-insert}
use collective_capability_ru.Prelude.Text.{is_empty}
use collective_capability_ru.Result.{ok, bind_ok, ok_inj}
use collective_capability_ru.Json.{Json, Dict, null, str}
use collective_capability_ru.Json.Equality.{json_eq}
use collective_capability_ru.Json.Fields.{get}
use collective_capability_ru.Json.Python.{get_default, as_dict}
use collective_capability_ru.Env.{Env}
use collective_capability_ru.Workcells.Claims.{
  Gathered, set_add, list_of, claims_of, text_of, key_of, fresh_claim, group_of, gather, or_fresh,
  add_claim, add_claims, group_claims, effective_support_count,
}

-- `values.add` of each, in turn.
abbrev pub add_all : List Json → List Json → List Json
add_all values [] = values
add_all values (x ∷ xs) = add_all (set_add x values) xs

-- A submission and one of its claims.
abbrev pub Contribution : Type 0
Contribution = Dict × Dict

abbrev pub gather_lists : String → List Contribution → List Json
gather_lists field [] = []
gather_lists field ((e, c) ∷ ps) = list_of (get field c) ++ gather_lists field ps

module _ ⦃env : Env⦄ where
  -- The claims of one submission that have a text.
  abbrev pub stated : Dict → List Dict → List Contribution
  stated e [] = []
  stated e (c ∷ cs) = let rest = stated e cs in if is_empty (text_of c) then rest else (e, c) ∷ rest

  abbrev pub contributions : List Dict → List Contribution
  contributions [] = []
  contributions (e ∷ es) = stated e (claims_of (as_dict (get "payload" e))) ++ contributions es

  abbrev pub with_key : String → List Contribution → List Contribution
  with_key key [] = []
  with_key key ((e, c) ∷ ps) =
      let rest = with_key key ps in if str_eq (key_of c) key then (e, c) ∷ rest else rest

  -- A claim's entry with more contributions.
  abbrev pub supported : Gathered → List Contribution → Gathered
  supported g ps = record {
    claim_id = g.claim_id;
    claim_text = g.claim_text;
    contradictions = g.contradictions ++ gather_lists "contradictions" ps;
    dependencies = g.dependencies ++ gather_lists "dependencies" ps;
    evidence = g.evidence ++ gather_lists "evidence" ps;
    groups = add_all g.groups (map (λ p. group_of p.0) ps);
    submissions = g.submissions ++ map (λ p. get_default (get "submission_id" p.0) null) ps;
  }

  -- The entry of a claim, from all contributions to it: the first one gives the text.
  abbrev pub summary : List Contribution → Option Gathered
  summary [] = none
  summary ((e, c) ∷ ps) = some (supported (fresh_claim c) ((e, c) ∷ ps))

  extend : Option Gathered → List Contribution → Option Gathered
  extend o [] = o
  extend o ((e, c) ∷ ps) = extend (some (gather e c (or_fresh c o))) ps

  extend-append :
      (o : Option Gathered) (ps qs : List Contribution)
      → extend o (ps ++ qs) ≡ extend (extend o ps) qs
  unfolding extend
  extend-append o [] qs = refl
  extend-append o ((e, c) ∷ ps) qs = extend-append (some (gather e c (or_fresh c o))) ps qs

  with_key-append :
      (key : String) (ps qs : List Contribution)
      → with_key key (ps ++ qs) ≡ with_key key ps ++ with_key key qs
  with_key-append key [] qs = refl
  with_key-append key ((e, c) ∷ ps) qs = ground (arith, with_key-append key ps qs)

  supported-nil : (g : Gathered) → supported g [] ≡ g
  supported-nil g = simp append-nil

  extend-some : (g : Gathered) (ps : List Contribution) → extend (some g) ps ≡ some (supported g ps)
  unfolding extend gather
  extend-some g [] = ap some (sym (supported-nil g))
  extend-some g ((e, c) ∷ ps) = extend-some (gather e c g) ps ∙ ap some (simp append_assoc)

  extend-none : (ps : List Contribution) → extend none ps ≡ summary ps
  unfolding extend gather fresh_claim
  extend-none [] = refl
  extend-none ((e, c) ∷ ps) =
      extend-some (gather e c (fresh_claim c)) ps ∙ ap some (simp append_assoc)

  lookup-add_claim :
      (key : String) (e c : Dict) (table table' : List (String × Gathered))
      → add_claim e c table ≡ ok table'
      → lookup key table' ≡ extend (lookup key table) (with_key key (stated e (c ∷ [])))
  unfolding extend add_claim
  lookup-add_claim key e c table table' h = ground (
    arith,
    lookup-insert (key_of c) key (gather e c (or_fresh c (lookup (key_of c) table))) table,
    eq_iff (key_of c) key,
  )

  lookup-add_claims :
      (key : String) (e : Dict) (cs : List Dict) (table table' : List (String × Gathered))
      → add_claims e cs table ≡ ok table'
      → lookup key table' ≡ extend (lookup key table) (with_key key (stated e cs))
  unfolding add_claims extend
  lookup-add_claims key e [] table table' h = ap (lookup key) (sym (ok_inj h))
  lookup-add_claims key e (c ∷ cs) table table' h =
      let (table_1, e_1, h_1) = bind_ok (add_claim e c table) _ h in
      lookup-add_claims key e cs table_1 table' h_1
      ∙ ap (λ o. extend o (with_key key (stated e cs))) (lookup-add_claim key e c table table_1 e_1)
      ∙ one_more c
    where
      one_more :
          (c : Dict)
          → extend
              (extend (lookup key table) (with_key key (stated e (c ∷ []))))
              (with_key key (stated e cs))
            ≡ extend (lookup key table) (with_key key (stated e (c ∷ cs)))
      one_more c = ground (arith)

  lookup-group_claims :
      (key : String) (es : List Dict) (table table' : List (String × Gathered))
      → group_claims es table ≡ ok table'
      → lookup key table' ≡ extend (lookup key table) (with_key key (contributions es))
  unfolding group_claims extend
  lookup-group_claims key [] table table' h = ap (lookup key) (sym (ok_inj h))
  lookup-group_claims key (e ∷ es) table table' h =
      let claims = claims_of (as_dict (get "payload" e)) in
      let (table_1, e_1, h_1) = bind_ok (add_claims e claims table) _ h in
      lookup-group_claims key es table_1 table' h_1
      ∙ ap (λ o. extend o (with_key key (contributions es)))
          (lookup-add_claims key e claims table table_1 e_1)
      ∙ sym (extend-append (lookup key table) (with_key key (stated e claims)) _)
      ∙ ap (extend (lookup key table))
          (sym (with_key-append key (stated e claims) (contributions es)))

  -- The table has an entry for a key exactly where some submission states a claim with that key, and
  -- the entry is the sum of all contributions to it: their evidence, dependencies, contradictions and
  -- submissions in order, and the set of their correlation groups.
  pub group_claims_lem :
      (key : String) (es : List Dict) (table : List (String × Gathered))
      → group_claims es [] ≡ ok table
      → lookup key table ≡ summary (with_key key (contributions es))
  unfolding lookup
  group_claims_lem key es table h =
      lookup-group_claims key es [] table h ∙ extend-none (with_key key (contributions es))

  one_group :
      (g : String) (ps : List Contribution)
      → All (λ p. group_of p.0 ≡ str g) ps
      → add_all (str g ∷ []) (map (λ p. group_of p.0) ps) ≡ str g ∷ []
  unfolding set_add json_eq
  one_group g [] h = refl
  one_group g (p ∷ ps) (h, hs) = rw h (ground (arith, eq_refl g, one_group g ps hs))

  count_one :
      (g : String) (ps : List Contribution) (c : Gathered)
      → All (λ p. group_of p.0 ≡ str g) ps
      → summary ps ≡ some c
      → effective_support_count c ≡ 1
  unfolding effective_support_count fresh_claim set_add
  count_one g [] c h e = cc
  count_one g ((d, claim) ∷ ps) c (h, hs) e =
      ap effective_support_count (some_inj (sym e))
      ∙ ap (λ x. length (add_all (set_add x []) (map (λ p. group_of p.0) ps))) h
      ∙ ap length (one_group g ps hs)

  -- However many submissions state a claim, they support it once if all of them come from one
  -- correlation group.
  pub correlated_support_once :
      (key g : String) (es : List Dict) (table : List (String × Gathered)) (c : Gathered)
      → group_claims es [] ≡ ok table
      → lookup key table ≡ some c
      → All (λ p. group_of p.0 ≡ str g) (with_key key (contributions es))
      → effective_support_count c ≡ 1
  correlated_support_once key g es table c h there same =
      count_one g (with_key key (contributions es)) c same
        (sym (group_claims_lem key es table h) ∙ there)
