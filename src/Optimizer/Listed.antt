-- ===== src/Optimizer/Listed.antt =====
-- What the checks of single values in optimizer/growth_model.py have found of the values that they
-- accept.
use collective_capability_ru.Prelude.{
  ◌≡◌, ap, ◌∙◌, ℕ, String, Option, none, some, some_inj, Option-cases, inl, inr, not, ◌&&◌, length,
  List, [], ◌∷◌, leb,
}
use collective_capability_ru.Prelude.Text.{codes, is_empty}
use collective_capability_ru.Result.{ok, err, key_error, ok_inj, bind_ok, require}
use collective_capability_ru.Json.{Json, Items, Dict, str, arr, obj, nil, cons, strings}
use collective_capability_ru.Json.Fields.{get}
use collective_capability_ru.Optimizer.Journal.{field}
use collective_capability_ru.Optimizer.Values.{
  keys_of, same_set, closed, closed_dict, text, texts_of, size_of, each_text, is_distinct,
  distinct_values, unique,
}

text_same : (s t : String) → text (str s) ≡ ok t → s ≡ t
unfolding text
text_same s t h =
    let (_, _, same) = bind_ok (require (not (is_empty s) && leb (length (codes s)) 4096) _) _ h in
    ok_inj same

each_text_same : (ss ts : List String) → each_text ss ≡ ok ts → ss ≡ ts
unfolding each_text
each_text_same [] ts h = ok_inj h
each_text_same (s ∷ ss) ts h =
    let (t, e_1, h_1) = bind_ok (text (str s)) _ h in
    let (rest, e_2, h_2) = bind_ok (each_text ss) _ h_1 in
    ap (λ (x : String). x ∷ ss) (text_same s t e_1)
    ∙ (ap (λ xs. t ∷ xs) (each_text_same ss rest e_2) ∙ ok_inj h_2)

texts_of_all : (xs : Items) (ss : List String) → texts_of xs ≡ some ss → xs ≡ strings ss
unfolding texts_of
texts_of_all nil ss h = ap strings (some_inj h)
texts_of_all (cons (str s) xs) ss h = elim (Option-cases (texts_of xs)) [
  | inl absent ↦ cc (rw absent at h)
  | inr (rest, there) ↦
      ap (λ ys. cons (str s) ys) (texts_of_all xs rest there)
      ∙ ap strings (some_inj (rw there at h))
]
texts_of_all (cons _ xs) ss h = cc

distinct_same :
    (o : Option (List String)) (ps : List String) → distinct_values o ≡ ok ps → o ≡ some ps
unfolding distinct_values
distinct_same none ps h = cc
distinct_same (some ss) ps h =
    let (_, _, h_1) = bind_ok (require (is_distinct ss) _) _ h in ap some (each_text_same ss ps h_1)

-- A list that `unique` accepts is that of the texts that it gives.
pub unique_listed :
    (limit : ℕ) (v : Json) (ps : List String) → unique limit v ≡ ok ps → v ≡ arr (strings ps)
unfolding unique
unique_listed limit (arr xs) ps h =
    let (_, _, h_1) = bind_ok (require (leb (size_of xs) limit) _) _ h in
    ap arr (texts_of_all xs ps (distinct_same (texts_of xs) ps h_1))
unique_listed limit _ ps h = cc

-- A value that `closed` accepts is an object.
pub closed_object :
    (v : Json) (fields : List String) (d : Dict) → closed v fields ≡ ok d → v ≡ obj d
unfolding closed closed_dict
closed_object (obj d') fields d h =
    let (_, _, same) = bind_ok (require (same_set (keys_of d') fields) _) _ h in
    ap obj (ok_inj same)
closed_object _ fields d h = cc

field_some :
    (k : String) (o : Option Json) (v : Json)
    → (elim o [ none ↦ err (key_error k) | some x ↦ ok x ]) ≡ ok v
    → o ≡ some v
field_some k none v h = cc
field_some k (some x) v h = ap some (ok_inj h)

found_field : (k : String) (d : Dict) (v : Json) → field k d ≡ ok v → get k d ≡ some v
unfolding field
found_field k d v h = field_some k (get k d) v h

-- The asset's record lists these parents.
pub record HasParents (spec : Json) (ps : List String) : Type 0 where
  pub fields : Dict
  pub declared : spec ≡ obj fields
  pub listed : get "parents" fields ≡ some (arr (strings ps))

pub listed-HasParents :
    (spec listed : Json) (names : List String) (d : Dict) (ps : List String)
    → closed spec names ≡ ok d
    → field "parents" d ≡ ok listed
    → unique 128 listed ≡ ok ps
    → HasParents spec ps
listed-HasParents spec listed names d ps e f u = record {
  fields = d;
  declared = closed_object spec names d e;
  listed = found_field "parents" d listed f ∙ ap some (unique_listed 128 listed ps u);
}
