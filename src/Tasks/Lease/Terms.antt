-- ===== src/Tasks/Lease/Terms.antt =====
-- The lease that a grant writes, and what the granted task's file says.
use collective_capability_ru.Prelude.{
  ℕ, String, ◌≡◌, refl, ap, ◌∙◌, Bool, true, ◌&&◌, some, [], ◌∷◌, and_left, and_right,
}
use collective_capability_ru.Prelude.Int.{ℤ, pos}
use collective_capability_ru.Prelude.Map.{string_eq, file_path_eq}
use collective_capability_ru.Result.{Result, ok, err, ◌>>=◌}
use collective_capability_ru.Env.{Env, to_text}
use collective_capability_ru.Json.Python.{or_default, to_int}
use collective_capability_ru.Exec.Laws.{Ends, Ends-lift, Same-refl}
use collective_capability_ru.Time.Expiry.{now_of, expired_at, Answered, is_expired-Ends}
use collective_capability_ru.Json.{Dict, bool, int, str, obj}
use collective_capability_ru.Json.Fields.{get, set, update, get-set}
use collective_capability_ru.Exec.{World}
use collective_capability_ru.Exec.Columns.{is_int64, bindable}
use collective_capability_ru.Tasks.{lease_of, token_of, next_fencing_token}
use collective_capability_ru.Tasks.Machine.{Stage, next_token}
use collective_capability_ru.Tasks.Tracking.{
  IsTask, IsStorable, Tracks, token_of-written, relet-IsTask, restamp-key,
}
use collective_capability_ru.Tasks.Effects.{next_fencing_token-row}
use collective_capability_ru.Tasks.Lease.{lease_required, lease_expired}

lease_required-bool : (b : Bool) → lease_required (some (bool b)) ≡ ok b
unfolding lease_required
lease_required-bool b = refl

module _ ⦃env : Env⦄ where
  -- Whether a stored lease is over at an instant; the number of minutes is taken where it has none.
  abbrev pub lapse : Dict → ℕ → ℕ → Result Bool
  lapse lease default now =
      to_int (or_default (get "ttl_minutes" lease) (int (pos default))) >>= λ ttl.
      expired_at (to_text (or_default (get "leased_at" lease) (str ""))) ttl now

  pub lease_expired-Ends :
      (lease : Dict) (default : ℕ) (w : World)
      → Ends
          (λ b w'. Answered w (lapse lease default (now_of w)) (ok b) w')
          (λ e w'. Answered w (lapse lease default (now_of w)) (err e) w')
          (lease_expired lease default w)
  unfolding lease_expired
  lease_expired-Ends lease default w =
      Ends-lift _ _ w (λ ttl e. rw e (is_expired-Ends _ ttl w)) (λ x e. (Same-refl w, rw e refl))

-- The lease that a grant writes.
abbrev pub granted_lease : String → ℤ → ℕ → Bool → String → Dict → Dict
granted_lease agent t ttl required at lease = update lease (
    ("lease_required", bool required)
    ∷ ("leased_at", str at)
    ∷ ("leased_by", str agent)
    ∷ ("fencing_token", int t)
    ∷ ("heartbeat_at", str at)
    ∷ ("ttl_minutes", int (pos ttl))
    ∷ [])

abbrev pub reclaimed_lease : String → ℤ → ℕ → String → Dict → Dict
reclaimed_lease agent t ttl at lease = update lease (
    ("fencing_token", int t)
    ∷ ("heartbeat_at", str at)
    ∷ ("leased_at", str at)
    ∷ ("leased_by", str agent)
    ∷ ("ttl_minutes", int (pos ttl))
    ∷ [])

-- What the granted lease says, whoever held it before.
module _ (agent : String) (t : ℤ) (ttl : ℕ) (required : Bool) (at : String) (lease : Dict) where
  granted_holder : get "leased_by" (granted_lease agent t ttl required at lease) ≡ some (str agent)
  granted_holder = simp get-set

  pub granted_token : token_of (granted_lease agent t ttl required at lease) ≡ ok t
  granted_token = token_of-written _ t (simp get-set)

  granted_flag :
      lease_required (get "lease_required" (granted_lease agent t ttl required at lease))
      ≡ ok required
  granted_flag = simp get-set (lease_required-bool required)

  reclaimed_holder : get "leased_by" (reclaimed_lease agent t ttl at lease) ≡ some (str agent)
  reclaimed_holder = simp get-set

  pub reclaimed_token : token_of (reclaimed_lease agent t ttl at lease) ≡ ok t
  reclaimed_token = token_of-written _ t (simp get-set)

  reclaimed_flag :
      lease_required (get "lease_required" lease) ≡ ok required
      → lease_required (get "lease_required" (reclaimed_lease agent t ttl at lease)) ≡ ok required
  reclaimed_flag h = simp get-set h

-- A row can hold the number of minutes and the token of a grant.
abbrev pub fits_row : ℕ → ℤ → Bool
fits_row ttl t = is_int64 (pos ttl) && is_int64 t

module _ (agent : String) (t : ℤ) (ttl : ℕ) (required : Bool) (at : String) (lease : Dict)
    (idle : bindable (get "idempotency_key" lease) ≡ true) (fits : fits_row ttl t ≡ true) where
  pub granted-IsStorable : IsStorable (granted_lease agent t ttl required at lease) t
  granted-IsStorable = record {
    by = simp get-set;
    at = simp get-set;
    minutes = simp get-set (and_left _ _ fits);
    small = and_right _ _ fits;
    beat = simp get-set;
    key = simp get-set idle;
  }

  pub reclaimed-IsStorable : IsStorable (reclaimed_lease agent t ttl at lease) t
  reclaimed-IsStorable = record {
    by = simp get-set;
    at = simp get-set;
    minutes = simp get-set (and_left _ _ fits);
    small = and_right _ _ fits;
    beat = simp get-set;
    key = simp get-set idle;
  }

abbrev pub granted_stage : Stage → String → Stage
granted_stage a agent = record {
  status = "leased";
  holder = some (str agent);
  token = next_token a.token;
}

module _ (id name agent : String) (a : Stage) (w : World) (t : Tracks id name a w) where
  pub next_token_tracked : next_fencing_token id w.db ≡ next_token a.token
  next_token_tracked = next_fencing_token-row id w.db ∙ ap next_token t.row

  -- What a granted task's file says.
  pub granted-IsTask :
      (ttl : ℕ) (at at' : String)
      → fits_row ttl (next_token a.token) ≡ true
      → IsTask id (some (str agent)) (next_token a.token) (
          set "lease"
            (obj (
              granted_lease agent (next_token a.token) ttl t.fields.required at' (lease_of t.task)))
            (set "updated_at" (str at) (set "status" (str "leased") t.task)))
  granted-IsTask ttl at at' fits =
      relet-IsTask id _ _ t.fields.required _ _ (restamp-key id "leased" at t.task t.fields.key)
        (granted_holder _ _ _ _ _ _) (granted_flag _ _ _ _ _ _) (granted_token _ _ _ _ _ _)
        (granted-IsStorable _ _ _ _ _ _ t.fields.storable.key fits)

  pub reclaimed-IsTask :
      (ttl : ℕ) (at at' : String)
      → fits_row ttl (next_token a.token) ≡ true
      → IsTask id (some (str agent)) (next_token a.token) (
          set "lease"
            (obj (reclaimed_lease agent (next_token a.token) ttl at' (lease_of t.task)))
            (set "updated_at" (str at) (set "status" (str "leased") t.task)))
  reclaimed-IsTask ttl at at' fits =
      relet-IsTask id _ _ t.fields.required _ _ (restamp-key id "leased" at t.task t.fields.key)
        (reclaimed_holder _ _ _ true _ _) (reclaimed_flag _ _ _ _ _ _ t.fields.flag)
        (reclaimed_token _ _ _ true _ _)
        (reclaimed-IsStorable _ _ _ true _ _ t.fields.storable.key fits)
