-- ===== src/Tasks/Machine.antt =====
-- The abstract life of one task: its status, who holds its lease and the fencing token of the last
-- grant. An operation of tasks/lease.py or tasks/lifecycle.py that succeeds is a step, or a stay.
use collective_capability_ru.Prelude.{String, ◌≡◌, ◌⊎◌, inl, inr, Option, some, arith}
use collective_capability_ru.Prelude.Int.{ℤ, pos, ◌+ℤ◌, ◌≤ℤ◌, le_ℤ_refl, le_ℤ_trans}
use collective_capability_ru.Json.{Json, null, str}

pub record Stage : Type 0 where
  pub status : String
  pub holder : Option Json
  pub token : ℤ

abbrev pub next_token : ℤ → ℤ
next_token t = t +ℤ pos 1

-- Back in the open queue, or blocked by a release, nobody holds the task; its token stays.
abbrev pub unheld : Stage → String → Stage
unheld a status = record { status = status; holder = some null; token = a.token }

abbrev pub at_status : Stage → String → Stage
at_status a status = record a { status = status }

pub data Step (a : Stage) : Stage → Type 0 where
  -- an open task, or a leased one whose lease may be taken, goes to an agent under a new token
  grant :
      (agent : String) (b : Stage)
      → (a.status ≡ "open") ⊎ (a.status ≡ "leased")
      → b ≡ record { status = "leased"; holder = some (str agent); token = next_token a.token }
      → Step a b
  -- a lease is given back, or one that is over is taken away
  let_go :
      (status : String) (b : Stage)
      → a.status ≡ "leased"
      → (status ≡ "open") ⊎ (status ≡ "blocked")
      → b ≡ unheld a status
      → Step a b
  -- the holder submits the task, or reports that it failed
  finish :
      (status : String) (b : Stage)
      → a.status ≡ "leased"
      → (status ≡ "submitted") ⊎ (status ≡ "blocked")
      → b ≡ at_status a status
      → Step a b
  -- an open task, or a leased one by its holder, is cancelled
  reject :
      (b : Stage)
      → (a.status ≡ "open") ⊎ (a.status ≡ "leased")
      → b ≡ at_status a "rejected"
      → Step a b
  -- a task that was blocked or cancelled is opened again
  reopen :
      (b : Stage)
      → (a.status ≡ "blocked") ⊎ (a.status ≡ "rejected")
      → b ≡ unheld a "open"
      → Step a b

pub data Steps (a : Stage) : Stage → Type 0 where
  stay : (b : Stage) → b ≡ a → Steps a b
  more : (b c : Stage) → Steps a b → Step b c → Steps a c

pub Steps-trans : (a b c : Stage) → Steps a b → Steps b c → Steps a c
Steps-trans a b c h (stay _ e) = rw e h
Steps-trans a b c h (more d _ before last) = more d c (Steps-trans a b d h before) last

pub next_token_le : (t : ℤ) → t ≤ℤ next_token t
next_token_le t = ground arith

-- A step keeps the token or raises it.
pub Step-token : (a b : Stage) → Step a b → a.token ≤ℤ b.token
Step-token a b (grant agent _ from e) = rw e (next_token_le a.token)
Step-token a b (let_go s _ from to e) = rw e (le_ℤ_refl a.token)
Step-token a b (finish s _ from to e) = rw e (le_ℤ_refl a.token)
Step-token a b (reject _ from e) = rw e (le_ℤ_refl a.token)
Step-token a b (reopen _ from e) = rw e (le_ℤ_refl a.token)

-- It raises the token by one at most.
pub Step-next : (a b : Stage) → Step a b → b.token ≤ℤ next_token a.token
Step-next a b (grant agent _ from e) = rw e (le_ℤ_refl (next_token a.token))
Step-next a b (let_go s _ from to e) = rw e (next_token_le a.token)
Step-next a b (finish s _ from to e) = rw e (next_token_le a.token)
Step-next a b (reject _ from e) = rw e (next_token_le a.token)
Step-next a b (reopen _ from e) = rw e (next_token_le a.token)

pub Steps-token : (a b : Stage) → Steps a b → a.token ≤ℤ b.token
Steps-token a b (stay _ e) = rw e (le_ℤ_refl a.token)
Steps-token a b (more c _ before last) =
    le_ℤ_trans a.token c.token b.token (Steps-token a c before) (Step-token c b last)

-- Nothing leads on from a submitted task, or from one in a queue that these operations never fill.
abbrev pub IsMovable : String → Type 0
IsMovable s = ((s ≡ "open") ⊎ (s ≡ "leased")) ⊎ ((s ≡ "blocked") ⊎ (s ≡ "rejected"))

Step-IsMovable : (a b : Stage) → Step a b → IsMovable a.status
Step-IsMovable a b (grant agent _ from e) = inl from
Step-IsMovable a b (let_go s _ from to e) = inl (inr from)
Step-IsMovable a b (finish s _ from to e) = inl (inr from)
Step-IsMovable a b (reject _ from e) = inl from
Step-IsMovable a b (reopen _ from e) = inr from

pub submitted-not_movable : IsMovable "submitted" → ⊥
submitted-not_movable (inl (inl e)) = cc
submitted-not_movable (inl (inr e)) = cc
submitted-not_movable (inr (inl e)) = cc
submitted-not_movable (inr (inr e)) = cc

pub Steps-submitted : (a b : Stage) → Steps a b → a.status ≡ "submitted" → b ≡ a
Steps-submitted a b (stay _ e) done = e
Steps-submitted a b (more c _ before last) done =
    let there : c.status ≡ "submitted" = rw (Steps-submitted a c before done) done in
    let movable : IsMovable c.status = Step-IsMovable c b last in
    elim (submitted-not_movable (rw there at movable)) [ ]
