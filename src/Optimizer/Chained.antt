-- ===== src/Optimizer/Chained.antt =====
-- What `append` writes, `replay` accepts.
use native.Mathlib.Nat.{zero-add}
use collective_capability_ru.Prelude.{
  ℕ, suc, ◌+◌, String, ◌≡◌, refl, ap, ◌∙◌, true, List, [], ◌∷◌, ◌++◌, length, arith,
}
use collective_capability_ru.Result.{Result, ◌>>=◌, ok, bind_ok, ok_inj}
use collective_capability_ru.Json.{Json, Dict, null, str, obj}
use collective_capability_ru.Json.Fields.{get, set}
use collective_capability_ru.Json.Equality.{json_eq, json_eq_pos, json_eq_str}
use collective_capability_ru.Env.{Env}
use collective_capability_ru.Optimizer.Journal.{
  unsigned, field, last_digest, unsigned_row, signed, append, check_event, check_chain,
}

length-snoc : (xs : List Dict) (x : Dict) → length (xs ++ (x ∷ [])) ≡ suc (length xs)
length-snoc [] x = refl
length-snoc (y ∷ ys) x = ap suc (length-snoc ys x)

module _ ⦃env : Env⦄ where
  -- The digest of a new row.
  abbrev digest_of : ℕ → Json → String → Json → String → Json → String
  digest_of n previous kind payload current revision =
      env.sha256 (obj (unsigned_row n previous kind payload current revision))

  -- The row of `append` passes the three tests.
  row_checked :
      (n : ℕ) (previous : Json) (kind : String) (payload : Json) (current : String)
      (revision : Json)
      → json_eq previous previous ≡ true
      → check_event n previous (signed (unsigned_row n previous kind payload current revision))
        ≡ ok (str (digest_of n previous kind payload current revision))
  unfolding check_event field get set unsigned
  row_checked n previous kind payload current revision same =
      rw (json_eq_pos n, same, json_eq_str (digest_of n previous kind payload current revision))
        refl

  check_chain-append :
      (n : ℕ) (previous : Json) (events : List Dict) (event : Dict) (d : Json)
      → check_chain n previous events ≡ ok d
      → check_chain n previous (events ++ (event ∷ []))
        ≡ (check_event (n + length events) d event >>= λ x. ok x)
  unfolding check_chain
  check_chain-append n previous [] event d h =
      let place : n ≡ n + 0 = omega arith in
      ap (λ p. check_event n p event >>= λ x. ok x) (ok_inj h)
      ∙ ap (λ i. check_event i d event >>= λ x. ok x) place
  check_chain-append n previous (e ∷ events) event d h =
      let (digest, e_1, h_1) = bind_ok (check_event n previous e) _ h in
      let place : n + 1 + length events ≡ n + suc (length events) = omega arith in
      rw e_1 (
        check_chain-append (n + 1) digest events event d h_1
        ∙ ap (λ i. check_event i d event >>= λ x. ok x) place)

  -- A journal that `replay` accepts, with its last digest.
  pub record IsAccepted (journal : List Dict) (digest : Json) : Type 0 where
    pub chain : check_chain 0 null journal ≡ ok digest
    pub last : last_digest journal ≡ ok digest
    pub itself : json_eq digest digest ≡ true

  last_digest-append :
      (events : List Dict) (event : Dict)
      → last_digest (events ++ (event ∷ [])) ≡ field "digest" event
  unfolding last_digest
  last_digest-append [] event = refl
  last_digest-append (e ∷ []) event = refl
  last_digest-append (e ∷ f ∷ events) event = last_digest-append (f ∷ events) event

  -- One more event, after which the journal is accepted again.
  append-IsAccepted :
      (journal : List Dict) (d revision : Json) (kind : String) (payload : Json) (current : String)
      → IsAccepted journal d
      → (journal' : List Dict) × (digest : Json) × (append journal revision kind payload current
          ≡ ok journal')
        × IsAccepted journal' digest
        × (length journal' ≡ suc (length journal))
  unfolding append field get set
  append-IsAccepted journal d revision kind payload current a =
      let row = signed (unsigned_row (length journal) d kind payload current revision) in
      let digest = digest_of (length journal) d kind payload current revision in
      (
        journal ++ (row ∷ []),
        str digest,
        rw a.last refl,
        record {
          chain =
              check_chain-append 0 null journal row d a.chain
              ∙ ap (λ i. check_event i d row >>= λ x. ok x) (zero-add (length journal))
              ∙ ap (λ r. r >>= λ x. ok x)
                  (row_checked (length journal) d kind payload current revision a.itself);
          last = last_digest-append journal row;
          itself = json_eq_str digest;
        },
        length-snoc journal row,
      )

  -- What one call of `append` is given.
  pub record Call : Type 0 where
    pub revision : Json
    pub kind : String
    pub payload : Json
    pub current : String

  -- The calls of `append`, one after the other.
  pub append_all : List Call → List Dict → Result (List Dict)
  append_all [] journal = ok journal
  append_all (c ∷ cs) journal = do
    journal' ← append journal c.revision c.kind c.payload c.current
    append_all cs journal'

  append_all-IsAccepted :
      (cs : List Call) (journal : List Dict) (d : Json)
      → IsAccepted journal d
      → (journal' : List Dict) × (digest : Json) × (append_all cs journal ≡ ok journal')
        × IsAccepted journal' digest
        × (length journal' ≡ length journal + length cs)
  unfolding append_all
  append_all-IsAccepted [] journal d a = (journal, d, refl, a, omega arith)
  append_all-IsAccepted (c ∷ cs) journal d a =
      let (j_1, d_1, e_1, a_1, l_1) =
        append-IsAccepted journal d c.revision c.kind c.payload c.current a in
      let (j_2, d_2, e_2, a_2, l_2) = append_all-IsAccepted cs j_1 d_1 a_1 in
      (j_2, d_2, rw e_1 e_2, a_2, omega (arith, l_1, l_2))

  -- A journal that is written by calls of `append`, from the empty one on, passes the digest chain
  -- of `replay`: no call raises, and each has added one event.
  pub check_chain-append_all :
      (cs : List Call)
      → (journal : List Dict) × (digest : Json) × (append_all cs [] ≡ ok journal)
        × (check_chain 0 null journal ≡ ok digest)
        × (length journal ≡ length cs)
  unfolding check_chain last_digest json_eq
  check_chain-append_all cs =
      let (journal, d, e, a, l) =
        append_all-IsAccepted cs [] null (record { chain = refl; last = refl; itself = refl }) in
      (journal, d, e, a.chain, omega (arith, l))
