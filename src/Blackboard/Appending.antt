-- ===== src/Blackboard/Appending.antt =====
-- The log touches no other file.
use collective_capability_ru.Prelude.{String, ◌≡◌, refl, ◌∙◌, inl, inr, Option-cases}
use collective_capability_ru.Prelude.Map.{string_eq, lookup}
use collective_capability_ru.Result.{Error}
use collective_capability_ru.Json.{Dict}
use collective_capability_ru.Env.{Env}
use collective_capability_ru.Exec.{World, OutboxRow, insert_outbox}
use collective_capability_ru.Exec.Laws.{Ends, Ends-pure, Ends-bind, Ends-weaken}
use collective_capability_ru.Exec.Steps.{tick, step_now}
use collective_capability_ru.Blackboard.{EventSpec, make_event, append_line, append_event}

outbox_files :
    (id : String) (row : OutboxRow) (w : World) {Q : Error → World → Type 0}
    → Ends (λ _ w'. w'.files ≡ w.files) Q (insert_outbox id row w)
unfolding insert_outbox
outbox_files id row w = elim (Option-cases (lookup id w.db.outbox)) [
  | inl e ↦ rw (e, insert_outbox) (record { outcome = refl })
  | inr (r, e) ↦ rw (e, insert_outbox) (record { outcome = refl })
]

line_files :
    (event : Dict) (w : World) {Q : Error → World → Type 0}
    → Ends (λ _ w'. w'.files ≡ w.files) Q (append_line event w)
unfolding append_line
line_files event w = record { outcome = refl }

module _ ⦃env : Env⦄ {Q : Error → World → Type 0} where
  pub append_event_files :
      (event : Dict) (w : World) → Ends (λ _ w'. w'.files ≡ w.files) Q (append_event event w)
  unfolding append_event
  append_event_files event w = step_now _ _ (
      Ends-bind _ _ _ (outbox_files _ _ (tick w))
        (λ _ w' h. Ends-weaken _ (line_files event w') (λ _ w'' k. k ∙ h)))

  pub make_event_files :
      (e : EventSpec) (w : World) → Ends (λ _ w'. w'.files ≡ w.files) Q (make_event e w)
  unfolding make_event
  make_event_files e w = step_now _ _ (Ends-pure _ _ refl)
