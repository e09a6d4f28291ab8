-- ===== src/Result.antt =====
-- Python exceptions as values, and the results of code that may raise.
use collective_capability_ru.Prelude.{refl, String, ◌≡◌, Bool, true, false, arith}

-- The exceptions that the modelled code raises; a text is the message or the missing name.
pub data Error : Type 0 where
  value_error file_not_found file_exists key_error : String → Error
  type_error overflow_error attribute_error binding_error : Error

pub data Result {ℓ} (A : Type ℓ) : Type ℓ where
  ok : A → Result A
  err : Error → Result A

infixl 5 ◌>>=◌ ◌>>◌
abbrev pub ◌>>=◌ {ℓ κ} : {A : Type ℓ} {B : Type κ} → Result A → (A → Result B) → Result B
ok value >>= next = next value
err error >>= next = err error

abbrev pub ◌>>◌ {ℓ} : {B : Type ℓ} → Result (Unit {0}) → Result B → Result B
checked >> next = checked >>= λ _. next

-- `if not test: raise e`.
abbrev pub require : Bool → Error → Result (Unit {0})
require true e = ok tt
require false e = err e

pub require_passed : (b : Bool) (e : Error) {a : Unit {0}} → require b e ≡ ok a → b ≡ true
require_passed b e h = ground arith

pub ok_inj {ℓ} : {A : Type ℓ} {a b : A} → Result.ok a ≡ ok b → a ≡ b
ok_inj e = cc

-- A chain that returned has a first part that returned.
pub bind_ok {ℓ κ} :
    {A : Type ℓ} {B : Type κ} (r : Result A) (f : A → Result B) {b : B}
    → (r >>= f) ≡ ok b
    → (a : A) × (r ≡ ok a) × (f a ≡ ok b)
bind_ok (ok a) f h = (a, refl, h)
bind_ok (err e) f h = cc
