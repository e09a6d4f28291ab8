-- ===== src/Operations/Registry.antt =====
-- operations/approval.py: the registry of approvals, and the use that one edit of it takes.
use collective_capability_ru.Prelude.{
  ℕ, String, Bool, true, not, Option, none, some, leb, str_eq, if◌then◌else◌,
}
use collective_capability_ru.Prelude.Int.{ℤ, pos, ◌+ℤ◌, leb_ℤ}
use collective_capability_ru.Prelude.Map.{string_eq, file_path_eq}
use collective_capability_ru.Result.{Result, ok, err, key_error, type_error, ◌>>=◌ as bind_result}
use collective_capability_ru.Json.{Json, Dict, null, int, str, obj}
use collective_capability_ru.Json.Fields.{get, set}
use collective_capability_ru.Env.{Env}
use collective_capability_ru.Operations.{dict_at, parse_time}

-- What `validate_and_consume_approval` returns.
pub data Verdict : Type 0 where
  refused : (failure : String) (approval : Option Dict) → Verdict
  consumed : (approval : Dict) → Verdict

unfoldable pub value_at : String → Option Json → Result Json
value_at key none = err (key_error key)
value_at key (some v) = ok v

unfoldable pub count_of : String → Option Json → Result ℤ
count_of key none = err (key_error key)
count_of key (some (int n)) = ok n
count_of key (some _) = err type_error

-- A count, an integer as the schema has it.
unfoldable pub count_at : String → Dict → Result ℤ
unfolding count_of
count_at key d = count_of key (get key d)

-- `registry_now is None or expiry <= registry_now`, of an expiry that has been read.
abbrev pub expired_by : Option ℕ → Option ℕ → Bool
expired_by (some e) (some now) = leb e now
expired_by _ _ = true

module _ ⦃env : Env⦄ where
  -- The counts and the time of an entry that is this approval's.
  unfoldable pub use_counted :
      String → Dict → Option ℕ → String → Dict → Dict → Dict → Result (Dict × Verdict)
  use_counted id approval expiry current registry approvals found =
      bind_result (count_at "use_count" found) (λ used.
        bind_result (count_at "max_uses" approval) (λ most.
          if leb_ℤ most used
          then ok (registry, refused "approval_replayed" (some approval))
          else if expired_by expiry (parse_time (some (str current)))
          then ok (registry, refused "approval_expired" (some approval))
          else ok (
            set "approvals"
                (obj (set id (obj (set "use_count" (int (used +ℤ pos 1)) found)) approvals))
                registry,
            consumed approval,
          )))

  -- An entry of the registry, once it is found: one use is taken, or the reason why not.
  unfoldable pub use_entry :
      String → Dict → Option ℕ → String → Dict → Dict → Dict → Result (Dict × Verdict)
  unfolding use_counted
  use_entry id approval expiry current registry approvals found =
      bind_result (value_at "artifact" (get "artifact" found)) (λ artifact.
        if not (str_eq (env.sha256 artifact) (env.sha256 (obj approval)))
        then ok (registry, refused "approval_registry_mismatch" (some approval))
        else use_counted id approval expiry current registry approvals found)

  unfoldable pub use_found :
      String → Dict → Option ℕ → String → Dict → Dict → Option Json → Result (Dict × Verdict)
  unfolding use_entry
  use_found id approval expiry current registry approvals none =
      ok (registry, refused "approval_registry_mismatch" (some approval))
  use_found id approval expiry current registry approvals (some (obj found)) =
      use_entry id approval expiry current registry approvals found
  use_found id approval expiry current registry approvals (some null) =
      ok (registry, refused "approval_registry_mismatch" (some approval))
  use_found id approval expiry current registry approvals (some _) = err type_error

  -- The body of the edit.
  unfoldable pub use_once : String → Dict → Option ℕ → Dict → String → Result (Dict × Verdict)
  unfolding use_found
  use_once id approval expiry registry current =
      bind_result (dict_at "approvals" registry)
        (λ approvals. use_found id approval expiry current registry approvals (get id approvals))
