-- ===== src/Tests/Profiles.antt =====
-- A profile of optimizer/growth_model.py that is accepted, and one that is not.
use collective_capability_ru.Prelude.{String, ◌≡◌, refl, List, [], ◌∷◌, true}
use collective_capability_ru.Prelude.Int.{pos}
use collective_capability_ru.Prelude.Map.{string_eq, lookup}
use collective_capability_ru.Result.{ok, err, value_error}
use collective_capability_ru.Json.{Json, Dict, null, bool, int, str, arr, obj, dict, items, strings}
use collective_capability_ru.Json.Fields.{get, set}
use collective_capability_ru.Optimizer.Normalize.{normalize}
use collective_capability_ru.Tests.Setup.{test_env}

abbrev digest_a : String
digest_a = "aaaaaaaaaaaaaaaaaaaaaaaaaaaaaaaaaaaaaaaaaaaaaaaaaaaaaaaaaaaaaaaa"

abbrev digest_b : String
digest_b = "bbbbbbbbbbbbbbbbbbbbbbbbbbbbbbbbbbbbbbbbbbbbbbbbbbbbbbbbbbbbbbbb"

-- `normalize_config` of a profile's base, in the parts that `normalize` reads.
abbrev base : Dict
base = dict (
    ("resource_limits", obj (dict (("tokens", int (pos 100)) ∷ [])))
    ∷ (
      "evaluation",
      obj (dict (("resource_envelope", obj (dict (("tokens", int (pos 100)) ∷ []))) ∷ [])),
    )
    ∷ ("deadline", str "Tiii")
    ∷ ("max_inflight", int (pos 1))
    ∷ (
      "interventions",
      arr (
          items (
            obj (
              dict (
                ("intervention_id", str "distil")
                ∷ ("kind", str "distillation")
                ∷ ("resource_upper_bound", obj (dict (("tokens", int (pos 5)) ∷ [])))
                ∷ []))
            ∷ [])),
    )
    ∷ ("task_manifest", arr (items (obj (dict (("target_id", str "t1") ∷ [])) ∷ [])))
    ∷ [])

abbrev of_parents : List String → Json
of_parents parents = obj (
    dict (
      ("version", str "1")
      ∷ ("source_mission", str "m1")
      ∷ ("receivers", arr (strings ("r1" ∷ [])))
      ∷ ("parents", arr (strings parents))
      ∷ ("external_inputs", arr (strings []))
      ∷ ("expires_at", str "Ti")
      ∷ []))

abbrev assets_of_profile : Dict
assets_of_profile = dict ((digest_a, of_parents []) ∷ (digest_b, of_parents (digest_a ∷ [])) ∷ [])

abbrev form : Json
form = obj (
    dict (
      ("kind", str "formation")
      ∷ ("intervention_id", str "distil")
      ∷ ("target_id", str "t1")
      ∷ ("receiver", str "r1")
      ∷ ("requires", arr (strings (digest_a ∷ [])))
      ∷ ("produces", str digest_b)
      ∷ ("gains", obj (dict (("task", int (pos 0)) ∷ ("research", int (pos 0)) ∷ [])))
      ∷ ("duration_seconds", int (pos 60))
      ∷ ("cleanup_seconds", int (pos 1))
      ∷ ("cleanup_cost", obj (dict (("tokens", int (pos 1)) ∷ [])))
      ∷ ("capacity", obj (dict (("workers", int (pos 1)) ∷ [])))
      ∷ ("verification_work", obj (dict (("review", int (pos 1)) ∷ [])))
      ∷ ("authority", str "local_only")
      ∷ ("evidence_refs", arr (strings ("e1" ∷ [])))
      ∷ ("service_measurement", obj (dict (("review", int (pos 0)) ∷ [])))
      ∷ []))

abbrev quota : Json
quota = obj (
    dict (
      ("pool_id", str "p1")
      ∷ ("pool_budget", obj (dict (("tokens", int (pos 500)) ∷ [])))
      ∷ ("pool_capacity", obj (dict (("workers", int (pos 2)) ∷ [])))
      ∷ ("budget", obj (dict (("tokens", int (pos 100)) ∷ [])))
      ∷ ("capacity", obj (dict (("workers", int (pos 2)) ∷ [])))
      ∷ ("allocation_ref", str "alloc")
      ∷ []))

abbrev terms : Dict
terms = dict (
    ("study_id", str "s1")
    ∷ ("checkpoint_digest", str digest_a)
    ∷ ("evidence_mode", str "synthetic")
    ∷ ("targets", obj (dict (("task", int (pos 1)) ∷ ("research", int (pos 1)) ∷ [])))
    ∷ (
      "units",
      obj (
          dict (
            ("task", str "tasks")
            ∷ ("research", str "papers")
            ∷ ("costs", obj (dict (("tokens", str "tokens") ∷ [])))
            ∷ [])),
    )
    ∷ ("horizon_seconds", int (pos 60))
    ∷ ("max_steps", int (pos 2))
    ∷ ("candidate_limit", int (pos 4))
    ∷ ("attribution_seconds", int (pos 60))
    ∷ ("window_end", str "Tii")
    ∷ (
      "receivers",
      obj (
          dict (
            (
              "r1",
              obj (
                  dict (
                    ("mission_id", str "m1")
                    ∷ ("context_sha256", str digest_a)
                    ∷ ("domain", str "d")
                    ∷ ("protocol", str "p")
                    ∷ ("evaluator", str "e")
                    ∷ ("quality", str "q")
                    ∷ ("cross_mission_allowed", bool true)
                    ∷ [])),
            )
            ∷ [])),
    )
    ∷ ("assets", obj assets_of_profile)
    ∷ ("actions", obj (dict (("form", form) ∷ [])))
    ∷ ("bundles", obj (dict (("first", arr (strings ("form" ∷ []))) ∷ [])))
    ∷ ("scenarios", obj (dict (("s1", obj (dict (("form", bool true) ∷ []))) ∷ [])))
    ∷ (
      "verifier_stages",
      obj (
          dict (
            (
              "review",
              obj (
                  dict (
                    ("domains", arr (strings ("d" ∷ [])))
                    ∷ ("quality", str "q")
                    ∷ ("service_units_per_second", null)
                    ∷ ("fresh_until", str "Tii")
                    ∷ ("independence_groups", arr (strings ([])))
                    ∷ ("exposure_groups", arr (strings ([])))
                    ∷ ("dependence", str "unknown")
                    ∷ [])),
            )
            ∷ [])),
    )
    ∷ ("quota", quota)
    ∷ ("cost_order", arr (strings ("tokens" ∷ [])))
    ∷ ("diagnostic_budget", obj (dict (("tokens", int (pos 1)) ∷ [])))
    ∷ (
      "comparison",
      obj (
          dict (
            ("restricted_bundles", arr (strings ("first" ∷ [])))
            ∷ ("independent_unit", str "mission")
            ∷ ("uncertainty_method", str "unresolved")
            ∷ [])),
    )
    ∷ [])

abbrev profile : Dict
profile = dict (
    ("schema_version", str "ccr.growth_profile.v1")
    ∷ ("policy", str "verified_growth_v1")
    ∷ ("base", null)
    ∷ ("growth", obj terms)
    ∷ [])

abbrev stored : Dict
stored = set "config_digest" (str "0123456789abcdef01234567") (set "growth" (obj terms) base)

-- The same profile with the two assets made of each other.
abbrev looped : Dict
looped =
    set "growth"
      (obj (
        set "assets"
          (obj (
            dict (
              (digest_a, of_parents (digest_b ∷ []))
              ∷ (digest_b, of_parents (digest_a ∷ []))
              ∷ [])))
          terms))
      profile

looped_refused : normalize looped (ok base) ≡ err (value_error "cyclic lineage")
unfolding normalize get set lookup
looped_refused = refl
