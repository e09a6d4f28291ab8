-- ===== src/Tasks/Factory.antt =====
-- tasks/factory.py: construction of a task.
use collective_capability_ru.Prelude.{String, true, false, [], ◌∷◌, if◌then◌else◌}
use collective_capability_ru.Prelude.Int.{ℤ, pos, leb_ℤ}
use collective_capability_ru.Json.{
  Items, Dict, null, bool, int, str, arr, obj, nil, cons, end, entry, dict, strings,
}
use collective_capability_ru.Json.Fields.{set}
use collective_capability_ru.Env.{Env}
use collective_capability_ru.Ids.{stable_id}

abbrev pub fixed_created_at : String
fixed_created_at = "1970-01-01T00:00:00Z"

-- The keyword arguments of `build_task`.
pub record TaskSpec : Type 0 where
  pub kind : String
  pub title : String
  pub objective : String
  pub role : String
  pub source : String
  pub priority : ℤ
  pub inputs : Items
  pub extensions : Dict

-- `{**d, **e}`
abbrev pub merge : Dict → Dict → Dict
merge d end = d
merge d (entry k v e) = merge (set k v d) e

-- `max(0, min(100, priority))`
abbrev pub clamp : ℤ → ℤ
clamp p = if leb_ℤ p (pos 0) then pos 0 else if leb_ℤ (pos 100) p then pos 100 else p

-- The lease that nobody holds yet.
abbrev pub fresh_lease : Dict
fresh_lease = dict (
    ("lease_required", bool true)
    ∷ ("leased_at", null)
    ∷ ("leased_by", null)
    ∷ ("renewal_allowed", bool true)
    ∷ ("ttl_minutes", int (pos 30))
    ∷ [])

module _ ⦃env : Env⦄ where
  -- The identifier that `build_task` derives.
  unfoldable pub task_id_of : TaskSpec → String
  task_id_of t = stable_id "task" (str t.kind ∷ str t.role ∷ str t.source ∷ str t.objective ∷ [])

  -- `build_task`
  unfoldable pub build_task : TaskSpec → Dict
  build_task t = dict (
      ("blackboard_refs", arr nil)
      ∷ ("completion", obj end)
      ∷ (
        "constraints",
        obj (
            dict (
              ("allowed_commands", arr nil)
              ∷ ("authority_policy", str "read_only")
              ∷ (
                "forbidden_actions",
                arr (strings ("automatic_execution" ∷ "shell_expansion" ∷ [])),
              )
              ∷ ("max_runtime_minutes", int (pos 30))
              ∷ ("network_policy", str "none")
              ∷ ("side_effect_policy", str "dry_run_only")
              ∷ [])),
      )
      ∷ ("created_at", str fixed_created_at)
      ∷ ("dependencies", arr nil)
      ∷ (
        "expected_outputs",
        arr (
            cons
              (obj (
                dict (
                  ("acceptance_criteria", arr (strings ("Residuals must be preserved." ∷ [])))
                  ∷ ("destination", str "tasks/open")
                  ∷ ("kind", str "json")
                  ∷ ("schema_ref", str "schemas/task.schema.json")
                  ∷ [])))
              nil),
      )
      ∷ ("extensions", obj (merge (dict (("x_ccr_task_kind", str t.kind) ∷ [])) t.extensions))
      ∷ ("inputs", arr t.inputs)
      ∷ ("lease", obj fresh_lease)
      ∷ ("objective", str t.objective)
      ∷ (
        "pic_interop",
        obj (
            dict (
              ("candidate_only_until_checked", bool true)
              ∷ ("enabled", bool true)
              ∷ ("identity_context_required", bool false)
              ∷ ("input_mapping", str "none")
              ∷ ("output_mapping", str "none")
              ∷ ("pic_profile", str "development")
              ∷ ("recommended_pic_commands", arr nil)
              ∷ [])),
      )
      ∷ ("priority", int (clamp t.priority))
      ∷ (
        "residual_policy",
        obj (
            dict (
              ("blocking_residuals_prevent_settlement", bool true)
              ∷ (
                "minimum_residual_fields",
                arr (strings ("residual_id" ∷ "kind" ∷ "description" ∷ "blocking" ∷ [])),
              )
              ∷ ("preserve_residuals", bool true)
              ∷ ("residual_destination", str "residuals/open")
              ∷ [])),
      )
      ∷ ("role", str t.role)
      ∷ ("schema_version", str "ccr.task.v0.1")
      ∷ ("status", str "open")
      ∷ ("task_id", str (task_id_of t))
      ∷ ("title", str t.title)
      ∷ (
        "verifier_plan",
        obj (
            dict (
              ("failure_route", str "residual")
              ∷ ("optional_verifiers", arr (strings ("pic" ∷ [])))
              ∷ ("promotion_gate", str "none")
              ∷ ("required_verifiers", arr nil)
              ∷ [])),
      )
      ∷ [])
