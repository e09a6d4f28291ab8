-- ===== src/Tasks/Fence.antt =====
-- The fence that guards every transition of a leased task.
use collective_capability_ru.Prelude.{
  String, ◌≡◌, ◌↔◌, true, inl, inr, Bool-cases, arith, eq_iff, str_eq,
}
use collective_capability_ru.Prelude.Int.{ℤ, eqb_ℤ, eqb_ℤ→eq, eqb_ℤ_refl}
use collective_capability_ru.Result.{Error, Result, ok, err, require, ◌>>=◌}
use collective_capability_ru.Json.{Dict}
use collective_capability_ru.Json.Fields.{get}
use collective_capability_ru.Json.Python.{is_str}
use collective_capability_ru.Tasks.{lease_of, token_of, require_lease}

-- The agent holds the lease of a leased task, under this very token.
pub record HoldsLease (task : Dict) (status agent : String) (token : ℤ) : Type 0 where
  pub leased : status ≡ "leased"
  pub owned : is_str (get "leased_by" (lease_of task)) agent ≡ true
  pub current : token_of (lease_of task) ≡ ok token

token_matches :
    (r : Result ℤ) (token : ℤ) (e : Error)
    → (r >>= λ held. require (eqb_ℤ held token) e) ≡ ok tt
    → r ≡ ok token
token_matches (ok held) token e h = ground (arith, eqb_ℤ→eq held token)
token_matches (err e') token e h = cc

passes :
    (task : Dict) (status agent : String) (token : ℤ)
    → require_lease task status agent token ≡ ok tt
    → HoldsLease task status agent token
unfolding require_lease
passes task status agent token h = elim (Bool-cases (str_eq status "leased")) [
  | inr e ↦ cc (rw e at h)
  | inl e ↦ elim (Bool-cases (is_str (get "leased_by" (lease_of task)) agent)) [
    | inr o ↦ cc (rw (e, o) at h)
    | inl o ↦ record {
      leased = (eq_iff status "leased").0 e;
      owned = o;
      current = token_matches (token_of (lease_of task)) token _ (rw (e, o) at h);
    }
  ]
]

-- `_require_lease` lets a call pass exactly when the task is leased, the agent holds the lease and
-- the token is the one in the lease; every other call gets an exception.
pub require_lease_iff :
    (task : Dict) (status agent : String) (token : ℤ)
    → (require_lease task status agent token ≡ ok tt) ↔ HoldsLease task status agent token
unfolding require_lease
require_lease_iff task status agent token =
    (passes task status agent token, λ h. rw (h.leased, h.owned, h.current, eqb_ℤ_refl token))
