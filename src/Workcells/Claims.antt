-- ===== src/Workcells/Claims.antt =====
-- `_integrate_claims`: the claims of all submissions, grouped by their text.
use Prim.Native.Nat.{Ordering}
use Prim.Native.String.{compare as compare_text}
use collective_capability_ru.Prelude.{
  ℕ, String, Bool, true, false, Option, none, some, List, [], ◌∷◌, ◌++◌, map, any, length,
  if◌then◌else◌,
}
use collective_capability_ru.Prelude.Int.{pos}
use collective_capability_ru.Prelude.Map.{string_eq, lookup, insert}
use collective_capability_ru.Prelude.Sorted.{sort_texts, sorted_set}
use collective_capability_ru.Prelude.Text.{is_empty}
use collective_capability_ru.Prelude.Words.{strip, split_words, join_words}
use collective_capability_ru.Result.{Result, ok, err, type_error, ◌>>=◌}
use collective_capability_ru.Json.{
  Json, Dict, null, int, str, arr, obj, nil, dict, elements, strings,
}
use collective_capability_ru.Json.Equality.{json_eq}
use collective_capability_ru.Json.Fields.{get}
use collective_capability_ru.Json.Python.{get_default, or_default, truthy, as_dict}
use collective_capability_ru.Env.{Env, to_text}
use collective_capability_ru.Ids.{stable_id}

-- The entry of one claim while it is gathered; `groups` is a set of values.
pub record Gathered : Type 0 where
  pub claim_id : String
  pub claim_text : String
  pub contradictions : List Json
  pub dependencies : List Json
  pub evidence : List Json
  pub groups : List Json
  pub submissions : List Json

-- Lists and dictionaries have no hash, and no set takes them.
unfoldable pub is_hashable : Json → Bool
is_hashable (arr _) = false
is_hashable (obj _) = false
is_hashable _ = true

-- `values.add(value)`, of a value that has a hash.
unfoldable pub set_add : Json → List Json → List Json
set_add x xs = if any (json_eq x) xs then xs else x ∷ xs

-- `_list`
unfoldable pub list_of : Option Json → List Json
list_of none = []
list_of (some null) = []
list_of (some (arr xs)) = elements xs
list_of (some v) = v ∷ []

module _ ⦃env : Env⦄ where
  abbrev as_claim : Json → Dict
  as_claim (obj d) = d
  as_claim v = dict (("claim_text", str (to_text v)) ∷ [])

  abbrev claim_alone : Json → Json → List Dict
  claim_alone text evidence =
      if truthy text
      then dict (("claim_text", str (to_text text)) ∷ ("evidence", evidence) ∷ []) ∷ []
      else []

  abbrev listed : Option Json → List Dict → List Dict
  listed (some (arr xs)) alone = map as_claim (elements xs)
  listed _ alone = alone

  -- `_claims`
  unfoldable pub claims_of : Dict → List Dict
  unfolding to_text
  claims_of payload = listed (get "claims" payload) (
      claim_alone (or_default (get "claim_text" payload) (get_default (get "summary" payload) null))
        (get_default (get "evidence" payload) (arr nil)))

  -- The stripped text of a claim; an empty one is passed over.
  unfoldable pub text_of : Dict → String
  unfolding strip to_text
  text_of claim =
      strip (to_text (or_default (get "claim_text" claim) (or_default (get "text" claim) (str ""))))

  -- `" ".join(text.casefold().split())`
  unfoldable pub key_of : Dict → String
  unfolding text_of split_words join_words
  key_of claim = join_words (split_words (env.casefold (text_of claim)))

  -- The default of `setdefault`.
  unfoldable pub fresh_claim : Dict → Gathered
  unfolding stable_id key_of text_of
  fresh_claim claim = record {
    claim_id = stable_id "workcell-claim" (str (key_of claim) ∷ []);
    claim_text = text_of claim;
    contradictions = [];
    dependencies = [];
    evidence = [];
    groups = [];
    submissions = [];
  }

  abbrev pub group_of : Dict → Json
  group_of envelope = get_default (get "correlation_group" envelope) null

  -- The five updates of a claim's entry.
  unfoldable pub gather : Dict → Dict → Gathered → Gathered
  unfolding set_add list_of
  gather envelope claim g = record g {
    groups = set_add (group_of envelope) g.groups;
    submissions = g.submissions ++ (get_default (get "submission_id" envelope) null ∷ []);
    evidence = g.evidence ++ list_of (get "evidence" claim);
    dependencies = g.dependencies ++ list_of (get "dependencies" claim);
    contradictions = g.contradictions ++ list_of (get "contradictions" claim);
  }

  abbrev pub or_fresh : Dict → Option Gathered → Gathered
  or_fresh claim none = fresh_claim claim
  or_fresh claim (some g) = g

  -- The body of the inner loop.
  unfoldable pub add_claim :
      Dict → Dict → List (String × Gathered) → Result (List (String × Gathered))
  unfolding gather is_hashable key_of text_of
  add_claim envelope claim table =
      if is_empty (text_of claim)
      then ok table
      else if is_hashable (group_of envelope)
      then ok (
          insert (key_of claim)
            (gather envelope claim (or_fresh claim (lookup (key_of claim) table))) table)
      else err type_error

  -- The inner loop.
  unfoldable pub add_claims :
      Dict → List Dict → List (String × Gathered) → Result (List (String × Gathered))
  unfolding add_claim
  add_claims envelope [] table = ok table
  add_claims envelope (claim ∷ claims) table = do
    table' ← add_claim envelope claim table
    add_claims envelope claims table'

  -- The outer loop, over the envelopes.
  unfoldable pub group_claims :
      List Dict → List (String × Gathered) → Result (List (String × Gathered))
  unfolding add_claims claims_of
  group_claims [] table = ok table
  group_claims (envelope ∷ envelopes) table = do
    table' ← add_claims envelope (claims_of (as_dict (get "payload" envelope))) table
    group_claims envelopes table'

  unfoldable pub effective_support_count : Gathered → ℕ
  effective_support_count g = length g.groups

  abbrev kept_items : List Json → List Json
  kept_items [] = []
  kept_items (x ∷ xs) = if truthy x then x ∷ kept_items xs else kept_items xs

  -- `sorted({str(item) for item in value[key] if item})`
  unfoldable pub distinct_texts : List Json → List String
  unfolding to_text sorted_set
  distinct_texts xs = sorted_set (map to_text (kept_items xs))

  -- An entry once its sets are sorted lists.
  unfoldable pub settle_claim : Gathered → Dict
  unfolding to_text distinct_texts sort_texts effective_support_count
  settle_claim g = dict (
      ("claim_id", str g.claim_id)
      ∷ ("claim_text", str g.claim_text)
      ∷ ("contradictions", arr (strings (distinct_texts g.contradictions)))
      ∷ ("dependencies", arr (strings (distinct_texts g.dependencies)))
      ∷ ("evidence", arr (strings (distinct_texts g.evidence)))
      ∷ ("support_submission_ids", arr (strings (distinct_texts g.submissions)))
      ∷ ("effective_support_count", int (pos (effective_support_count g)))
      ∷ ("support_correlation_groups", arr (strings (sort_texts (map to_text g.groups))))
      ∷ [])

  -- `sorted(results, key=lambda item: str(item["claim_id"]))`
  unfoldable pub insert_claim : Gathered → List Gathered → List Gathered
  insert_claim g [] = g ∷ []
  insert_claim g (h ∷ hs) =
      let later = insert_claim g hs in
      elim (compare_text g.claim_id h.claim_id) [ Ordering.gt ↦ h ∷ later | _ ↦ g ∷ h ∷ hs ]

  unfoldable pub sort_claims : List (String × Gathered) → List Gathered
  unfolding insert_claim
  sort_claims [] = []
  sort_claims ((k, g) ∷ table) = insert_claim g (sort_claims table)

  -- `_integrate_claims`
  unfoldable pub integrate_claims : List Dict → Result (List Gathered)
  unfolding group_claims sort_claims
  integrate_claims envelopes = do table ← group_claims envelopes []; ok (sort_claims table)
