-- ===== src/Tasks/Scheduler/Score.antt =====
-- `_scheduler_score` and `_time`.
use collective_capability_ru.Prelude.{
  ℕ, String, Bool, true, false, not, ◌||◌, Option, none, some, List, [], ◌∷◌, ◌==◌, if◌then◌else◌,
}
use collective_capability_ru.Prelude.Int.{pos}
use collective_capability_ru.Result.{Result, ok, ◌>>=◌ as bind_result}
use collective_capability_ru.Json.{Json, Dict, int, float, finite, inf, str, obj}
use collective_capability_ru.Json.Fields.{get}
use collective_capability_ru.Json.Python.{get_default, member_of}
use collective_capability_ru.Env.{Env}
use collective_capability_ru.Floats.{Floats, least, greatest}
use collective_capability_ru.Exec.{Exec, pure, lift, now_utc, ◌>>=◌}

-- `not isinstance(value, bool) and isinstance(value, int | float) and value >= 0`
unfoldable pub is_amount : Json → Bool
is_amount (int (pos n)) = true
is_amount (float (finite negative mantissa e)) = not negative || mantissa == 0
is_amount (float (inf negative)) = not negative
is_amount _ = false

-- The extensions that raise a score, with their weights.
abbrev pub weights : List (String × ℕ)
weights =
    ("x_blocking_fanout", 3)
    ∷ ("x_hazard_reduction", 4)
    ∷ ("x_verifiability", 2)
    ∷ ("x_diversity_deficit", 2)
    ∷ []

module _ ⦃env : Env⦄ where
  -- `_time`
  unfoldable pub time_of : Option Json → Option ℕ
  time_of (some (str s)) = elim (env.from_iso s) [
    | none ↦ none
    | some m ↦ (if m.aware then some m.micros else none)
  ]
  time_of _ = none

module _ ⦃env : Env⦄ ⦃floats : Floats⦄ where
  -- `min(cap, float(value))`, of an amount; nothing of any other value.
  abbrev pub capped : ℕ → Option Json → Result (Option floats.Number)
  capped cap none = ok none
  capped cap (some v) =
      if is_amount v
      then bind_result (floats.of_json v) (λ x. ok (some (least (floats.literal cap) x)))
      else ok none

  abbrev pub plus_weighted : floats.Number → ℕ → Option floats.Number → floats.Number
  plus_weighted score weight none = score
  plus_weighted score weight (some x) = floats.add score (floats.mul x (floats.literal weight))

  -- The loop over the weights.
  unfoldable pub add_weights : Dict → List (String × ℕ) → floats.Number → Result floats.Number
  unfolding is_amount
  add_weights extensions [] score = ok score
  add_weights extensions ((key, weight) ∷ rest) score =
      bind_result (capped 10 (get key extensions))
        (λ x. add_weights extensions rest (plus_weighted score weight x))

  abbrev pub less_cost : floats.Number → Option floats.Number → floats.Number
  less_cost score none = score
  less_cost score (some x) = floats.sub score x

  -- What the extensions and the role add to a score.
  unfoldable pub extended_score : Dict → Option Json → floats.Number → Result floats.Number
  unfolding add_weights is_amount member_of
  extended_score task (some (obj extensions)) score =
      bind_result (add_weights extensions weights score) (λ weighted.
        bind_result (capped 20 (get "x_cost_upper_bound" extensions)) (λ cost.
          bind_result (member_of (get "role" task) ("verifier" ∷ "skeptic" ∷ "scheduler" ∷ []))
            (λ preferred.
              let paid = less_cost weighted cost in
              ok (if preferred then floats.add paid (floats.literal 5) else paid))))
  extended_score task _ score = ok score

  -- The share of a task's age, at most 30 after as many days.
  unfoldable pub aged : floats.Number → Option ℕ → Exec floats.Number
  unfolding now_utc
  aged score none = pure score
  aged score (some created) = do
    now ← now_utc
    let hours = greatest (floats.literal 0) (floats.hours_between created now)
    pure (floats.add score (least (floats.literal 30) (floats.div hours (floats.literal 24))))

  -- `_scheduler_score`
  unfoldable pub scheduler_score : Dict → Exec floats.Number
  unfolding time_of aged extended_score
  scheduler_score task = do
    priority ← lift (floats.of_json (get_default (get "priority" task) (int (pos 50))))
    score ← aged priority (time_of (get "created_at" task))
    lift (extended_score task (get "extensions" task) score)
