-- ===== src/Time/Expiry.antt =====
-- `is_expired` of time.py: when a stored lease is over, as a function of one instant.
use collective_capability_ru.Prelude.{
  ℕ, ◌+◌, ◌*◌, ◌≤◌, String, ◌≡◌, refl, ap, sym, ◌∙◌, Bool, true, Option, none, some, leb, le→leb,
}
use collective_capability_ru.Prelude.Int.{ℤ, pos}
use collective_capability_ru.Result.{Error, Result, ok, err, ok_inj, ◌>>=◌ as bind_result}
use collective_capability_ru.Env.{Env}
use collective_capability_ru.Exec.{World, lift, now_utc, ◌>>=◌}
use collective_capability_ru.Exec.Laws.{
  Ends, Ends-pure, Ends-weaken, Ends-weaken_err, Ends-lift, Same, Same-refl, step,
}
use collective_capability_ru.Time.{
  max_moment, parse_timestamp, shift, after, expires_at, reached, is_expired,
}

-- Without an expiration a lease is over.
abbrev pub passed : Option ℕ → ℕ → Bool
passed none now = true
passed (some e) now = leb e now

-- The instant of the next reading of the clock.
abbrev pub now_of : World → ℕ
now_of w = w.clock w.readings

ok_not_err : (b : Bool) (e : Error) → ok b ≡ err e → ⊥
ok_not_err b e h = cc

module _ ⦃env : Env⦄ where
  -- The answer of `is_expired` at an instant.
  unfoldable pub expired_at : String → ℤ → ℕ → Result Bool
  expired_at leased_at ttl now = bind_result (expires_at leased_at ttl) (λ e. ok (passed e now))

  -- The answer is that of the instant, and asking changes nothing.
  abbrev pub Answered : World → Result Bool → Result Bool → World → Type 0
  Answered w expected r w' = Same w w' × (expected ≡ r)

  reached-Ends :
      (o : Option ℕ) (w : World) {Q : Error → World → Type 0}
      → Ends (λ b w'. Same w w' × (passed o (now_of w) ≡ b)) Q (reached o w)
  unfolding reached now_utc
  reached-Ends none w = Ends-pure _ _ (Same-refl w, refl)
  reached-Ends (some e) w = step _ _ refl (Ends-pure _ _ (record { files = refl; db = refl }, refl))

  answered :
      (r : Result (Option ℕ)) (w : World)
      → Ends
          (λ b w'. Answered w (bind_result r (λ e. ok (passed e (now_of w)))) (ok b) w')
          (λ e w'. Answered w (bind_result r (λ o. ok (passed o (now_of w)))) (err e) w')
          ((lift r >>= reached) w)
  answered r w =
      Ends-lift _ _ w (λ o e. Ends-weaken _ (reached-Ends o w) (λ b w' h. (h.0, rw e (ap ok h.1))))
        (λ x e. (Same-refl w, rw e refl))

  -- `is_expired` answers, or raises, as `expires_at` and one reading of the clock say, and changes
  -- no file and no row.
  pub is_expired-Ends :
      (leased_at : String) (ttl : ℤ) (w : World)
      → Ends
          (λ b w'. Answered w (expired_at leased_at ttl (now_of w)) (ok b) w')
          (λ e w'. Answered w (expired_at leased_at ttl (now_of w)) (err e) w')
          (is_expired leased_at ttl w)
  unfolding is_expired expired_at
  is_expired-Ends leased_at ttl w = answered (expires_at leased_at ttl) w

  expired_at_iso :
      (s m now : ℕ)
      → s * 1000000 + m * 60000000 ≤ max_moment
      → expired_at (env.iso s) (pos m) now ≡ ok (leb (s * 1000000 + m * 60000000) now)
  unfolding expired_at expires_at parse_timestamp after shift
  expired_at_iso s m now fits =
      rw (env.iso-not_empty s, env.from_iso-iso s) (rw (le→leb _ _ fits) refl)

  -- Of a lease that was stamped by `now_iso` at the second `s` for `m` minutes, where its end is a
  -- date that Python can hold, `is_expired` never raises and changes no file and no row; it answers
  -- true from the instant on that lies its minutes later, by one reading of the clock, and false
  -- before.
  pub is_expired-iso :
      (s m : ℕ) (w : World)
      → s * 1000000 + m * 60000000 ≤ max_moment
      → Ends
          (λ b w'. Same w w' × (b ≡ leb (s * 1000000 + m * 60000000) (now_of w)))
          (λ _ _. ⊥)
          (is_expired (env.iso s) (pos m) w)
  is_expired-iso s m w fits =
      let answer = expired_at_iso s m (now_of w) fits in
      Ends-weaken _
        (Ends-weaken_err _ (is_expired-Ends (env.iso s) (pos m) w)
          (λ e w' h. ok_not_err _ e (sym answer ∙ h.1)))
        (λ b w' h. (h.0, ok_inj (sym h.1 ∙ answer)))
