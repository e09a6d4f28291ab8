-- ===== src/Exec/Laws.antt =====
-- How a run ends: rules for properties of the result and of the state that is left, one for each
-- way in which an action is built.
use collective_capability_ru.Prelude.{◌≡◌, refl, ◌∙◌, Bool, true, false, if◌then◌else◌}
use collective_capability_ru.Result.{Error, Result, ok, err}
use collective_capability_ru.Exec
use collective_capability_ru.Exec.{World, Exec, pure, raise, lift, gets, transaction, ◌>>=◌}

-- `P` of the value and the state where the run returns, `Q` of the error and the state where it
-- raises.
abbrev pub Outcome :
    {A : Type 0} → (A → World → Type 0) → (Error → World → Type 0) → Result A × World → Type 0
Outcome P Q (ok a, w) = P a w
Outcome P Q (err e, w) = Q e w

pub record Ends {A : Type 0} (P : A → World → Type 0) (Q : Error → World → Type 0)
    (x : Result A × World) : Type 0 where
  pub outcome : Outcome P Q x

-- No file and no row has changed.
pub record Same (w w' : World) : Type 0 where
  pub files : w'.files ≡ w.files
  pub db : w'.db ≡ w.db

pub Same-refl : (w : World) → Same w w
Same-refl w = record { files = refl; db = refl }

pub Same-trans : {w w' w'' : World} → Same w w' → Same w' w'' → Same w w''
Same-trans h k = record { files = k.files ∙ h.files; db = k.db ∙ h.db }

-- A run that returns.
abbrev pub Returns : {A : Type 0} → (A → World → Type 0) → Result A × World → Type 0
Returns P x = Ends P (λ e w. ⊥) x

module _ {A : Type 0} {P : A → World → Type 0} {Q : Error → World → Type 0} where
  pub Ends-pure : (a : A) (w : World) → P a w → Ends P Q (pure a w)
  unfolding pure
  Ends-pure a w h = record { outcome = h }

  pub Ends-raise : (e : Error) (w : World) → Q e w → Ends P Q (raise e w)
  unfolding raise
  Ends-raise e w h = record { outcome = h }

  -- A lifted result at the end of a block.
  pub Ends-last :
      (r : Result A) (w : World)
      → ((a : A) → r ≡ ok a → P a w)
      → ((e : Error) → r ≡ err e → Q e w)
      → Ends P Q (lift r w)
  unfolding lift
  Ends-last (ok a) w k q = record { outcome = k a refl }
  Ends-last (err e) w k q = record { outcome = q e refl }

  pub Ends-if :
      (b : Bool) (m n : Exec A) (w : World)
      → (b ≡ true → Ends P Q (m w))
      → (b ≡ false → Ends P Q (n w))
      → Ends P Q ((if b then m else n) w)
  Ends-if true m n w hm hn = hm refl
  Ends-if false m n w hm hn = hn refl

  pub Ends-transaction :
      (m : Exec A) (w : World)
      → Ends P (λ e w'. Q e (record w' { db = w.db })) (m w)
      → Ends P Q (transaction m w)
  unfolding transaction
  Ends-transaction m w h = finished (m w) h
    where
      finished :
          (x : Result A × World)
          → Ends P (λ e w'. Q e (record w' { db = w.db })) x
          → Ends P Q (Exec.finish w.db x)
      finished (ok a, w') h = record { outcome = h.outcome }
      finished (err e, w') h = record { outcome = h.outcome }

pub Ends-weaken :
    {A : Type 0} {P P' : A → World → Type 0} {Q : Error → World → Type 0} (x : Result A × World)
    → Ends P Q x
    → ((a : A) (w : World) → P a w → P' a w)
    → Ends P' Q x
Ends-weaken (ok a, w) h k = record { outcome = k a w h.outcome }
Ends-weaken (err e, w) h k = record { outcome = h.outcome }

pub Ends-weaken_err :
    {A : Type 0} {P : A → World → Type 0} {Q Q' : Error → World → Type 0} (x : Result A × World)
    → Ends P Q x
    → ((e : Error) (w : World) → Q e w → Q' e w)
    → Ends P Q' x
Ends-weaken_err (ok a, w) h k = record { outcome = h.outcome }
Ends-weaken_err (err e, w) h k = record { outcome = k e w h.outcome }

-- What holds however the run ends, of the state that it leaves.
pub Ends-state :
    {A : Type 0} {P : A → World → Type 0} {Q : Error → World → Type 0} {R : World → Type 0}
    (x : Result A × World)
    → Ends P Q x
    → ((a : A) (w : World) → P a w → R w)
    → ((e : Error) (w : World) → Q e w → R w)
    → R x.1
Ends-state (ok a, w) h k q = k a w h.outcome
Ends-state (err e, w) h k q = q e w h.outcome

-- A transaction that raised has rolled its tables back: only the files have to be accounted for.
pub Same-rollback : {w w' : World} → Same w w' → Same w (record w' { db = w.db })
Same-rollback h = record { files = h.files; db = refl }

module _ {A B : Type 0} {P : B → World → Type 0} {Q : Error → World → Type 0} where
  -- The rest of the block may use what the first action establishes.
  pub Ends-bind :
      {R : A → World → Type 0} (m : Exec A) (f : A → Exec B) (w : World)
      → Ends R Q (m w)
      → ((a : A) (w' : World) → R a w' → Ends P Q (f a w'))
      → Ends P Q ((m >>= f) w)
  unfolding ◌>>=◌
  Ends-bind {R} m f w h k = bound (m w) h
    where
      bound : (x : Result A × World) → Ends R Q x → Ends P Q (Exec.continue x.0 f x.1)
      bound (ok a, w') h = k a w' h.outcome
      bound (err e, w') h = record { outcome = h.outcome }

  -- A step whose result is known.
  pub step :
      (m : Exec A) (f : A → Exec B) {a : A} {w w' : World}
      → m w ≡ (ok a, w')
      → Ends P Q (f a w')
      → Ends P Q ((m >>= f) w)
  unfolding ◌>>=◌
  step m f e h = rw e h

  pub step_lift :
      (r : Result A) (f : A → Exec B) {a : A} {w : World}
      → r ≡ ok a
      → Ends P Q (f a w)
      → Ends P Q ((lift r >>= f) w)
  unfolding ◌>>=◌
  step_lift r f e h = rw e h

  pub step_gets :
      (g : World → A) (f : A → Exec B) {a : A} {w : World}
      → g w ≡ a
      → Ends P Q (f a w)
      → Ends P Q ((gets g >>= f) w)
  unfolding ◌>>=◌
  step_gets g f e h = rw e h

  -- A lifted result, for all ways in which it may end.
  pub Ends-lift :
      (r : Result A) (f : A → Exec B) (w : World)
      → ((a : A) → r ≡ ok a → Ends P Q (f a w))
      → ((e : Error) → r ≡ err e → Q e w)
      → Ends P Q ((lift r >>= f) w)
  unfolding ◌>>=◌
  Ends-lift (ok a) f w k q = k a refl
  Ends-lift (err e) f w k q = record { outcome = q e refl }

-- Of a run that returned, what it returned.
pub Ends-exact :
    {A : Type 0} {P : A → World → Type 0} {Q : Error → World → Type 0} (x : Result A × World)
    → Ends P Q x
    → Ends (λ a w. P a w × (x ≡ (ok a, w))) Q x
Ends-exact (ok a, w) h = record { outcome = (h.outcome, refl) }
Ends-exact (err e, w) h = record { outcome = h.outcome }
