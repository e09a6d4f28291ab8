-- ===== src/Optimizer/Terms.antt =====
-- optimizer/growth_model.py: the part of `normalize` that checks the terms of the study.
use collective_capability_ru.Prelude.{
  ℕ, String, Bool, true, false, not, ◌&&◌, ◌||◌, List, [], ◌∷◌, length, all, leb,
}
use collective_capability_ru.Prelude.Int.{ℤ, pos}
use collective_capability_ru.Prelude.Text.{codes, is_digit, is_lower}
use collective_capability_ru.Result.{Result, ok, value_error, require, ◌>>=◌, ◌>>◌}
use collective_capability_ru.Json.{Json, Dict, int, obj}
use collective_capability_ru.Json.Equality.{json_eq}
use collective_capability_ru.Json.Python.{member_of}
use collective_capability_ru.Env.{Env}
use collective_capability_ru.Optimizer.Journal.{field}
use collective_capability_ru.Optimizer.Values.{
  keys_of, same_set, closed, integer, text, digest, integers, unique,
}
use collective_capability_ru.Optimizer.Profile.{
  Checked, each, passes, checked_at, dict_field, identifier, one_of, is_zero, timestamp,
}

-- `[a-z][a-z0-9_]{0,63}`
unfoldable pub is_unit : List ℕ → Bool
is_unit [] = false
is_unit (c ∷ cs) =
    is_lower c
    && all (λ d. is_lower d || is_digit d || (leb b'_' d && leb d b'_')) cs
    && leb (length cs) 63

unfoldable pub cost_unit : Json → Checked
unfolding text is_unit
cost_unit v = do unit ← text v; require (is_unit (codes unit)) (value_error "malformed cost unit")

module _ ⦃env : Env⦄ where
  abbrev pub term_names : List String
  term_names =
      "study_id" ∷ "checkpoint_digest" ∷ "evidence_mode" ∷ "targets" ∷ "units" ∷ "horizon_seconds"
      ∷ "max_steps" ∷ "candidate_limit" ∷ "attribution_seconds" ∷ "window_end" ∷ "receivers"
      ∷ "assets" ∷ "actions" ∷ "bundles" ∷ "scenarios" ∷ "verifier_stages" ∷ "quota" ∷ "cost_order"
      ∷ "diagnostic_budget" ∷ "comparison" ∷ []

  abbrev pub positive : List (String × ℤ) → Bool
  positive [] = true
  positive ((k, n) ∷ rest) = not (is_zero n) && positive rest

  -- The terms of the study, before the receivers.
  unfoldable pub check_terms : Json → Dict → Result Dict
  unfolding closed field identifier digest member_of integers dict_field text cost_unit each integer
      timestamp unique same_set json_eq
  check_terms growth base = do
    g ← closed growth term_names
    checked_at (identifier "study") "study_id" g
    checked_at digest "checkpoint_digest" g
    checked_at (one_of ("synthetic" ∷ "observational" ∷ []) "explicit evidence mode required")
        "evidence_mode" g
    targets ← field "targets" g
    goals ← integers targets ("task" ∷ "research" ∷ [])
    require (positive goals) (value_error "positive registered task and research targets required")
    units ← field "units" g
    u ← closed units ("task" ∷ "research" ∷ "costs" ∷ [])
    checked_at text "task" u
    checked_at text "research" u
    costs ← dict_field "resource_limits" base
    declared_units ← dict_field "costs" u
    require (same_set (keys_of declared_units) (keys_of costs))
        (value_error "cost units must match base resources")
    each (λ _ unit. cost_unit unit) declared_units
    passes (integers (obj costs) (keys_of costs))
    evaluation ← dict_field "evaluation" base
    envelope ← field "resource_envelope" evaluation
    passes (integers envelope (keys_of costs))
    checked_at (integer (pos 1) (pos 8)) "max_steps" g
    checked_at (integer (pos 1) (pos 86400)) "horizon_seconds" g
    checked_at (integer (pos 1) (pos 128)) "candidate_limit" g
    checked_at (integer (pos 1) (pos 31536000)) "attribution_seconds" g
    window ← field "window_end" g
    last ← timestamp window
    deadline ← field "deadline" base
    final ← timestamp deadline
    require (leb last final) (value_error "attribution window must fit registered deadline")
    order ← field "cost_order" g
    tied ← unique 128 order
    require (same_set tied (keys_of costs))
        (value_error "declare the complete typed cost tie order")
    checked_at (λ v. integers v (keys_of costs)) "diagnostic_budget" g
    inflight ← field "max_inflight" base
    require (json_eq inflight (int (pos 1)))
        (value_error "growth v1 uses one verified immediate step per run")
    ok g
