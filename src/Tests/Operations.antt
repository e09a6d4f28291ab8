-- ===== src/Tests/Operations.antt =====
-- Examples for operations/approval.py: an approval with one use, presented twice.
use collective_capability_ru.Prelude.{
  ℕ, String, ◌≡◌, refl, Option, none, some, List, [], ◌∷◌, arith,
}
use collective_capability_ru.Prelude.Int.{pos, ◌+ℤ◌, ◌≤ℤ◌}
use collective_capability_ru.Result.{value_error, err, ok}
use collective_capability_ru.Json.{end, Dict, int, str, obj, dict}
use collective_capability_ru.Json.Fields.{contains, get, set}
use collective_capability_ru.Operations.{dict_at, found_dict, parse_time}
use collective_capability_ru.Operations.Registry.{
  consumed, count_at, count_of, value_at, use_counted, use_entry, use_found, use_once,
}
use collective_capability_ru.Operations.Uses.{UseOutcome, entry_of, use_once_refines}
use collective_capability_ru.Operations.Replay.{Counts, run_uses, run_uses_bounded}
use collective_capability_ru.Operations.Create.{register}
use collective_capability_ru.Operations.Nonces.{
  Edit, registration, presented, edit_all, nonce_registered_once,
}
use collective_capability_ru.Tests.Setup.{test_env, iso_text}

abbrev approval : Dict
approval = dict (("approval_id", str "a1") ∷ ("max_uses", int (pos 1)) ∷ [])

abbrev entry_at : ℕ → Dict
entry_at n = dict (("artifact", obj approval) ∷ ("use_count", int (pos n)) ∷ [])

abbrev registry_at : ℕ → Dict
registry_at n = dict (("approvals", obj (dict (("a1", obj (entry_at n)) ∷ []))) ∷ [])

-- It expires at the ninth second, and it is the second one.
once :
    use_once "a1" approval (some 9000000) (registry_at 0) (iso_text 2)
    ≡ ok (registry_at 1, consumed approval)
unfolding use_once use_found use_entry use_counted dict_at found_dict value_at count_at count_of
    parse_time get set
once = refl

use_once_refines_example :
    UseOutcome "a1" approval
      (some 9000000)
      (iso_text 2)
      (registry_at 0)
      (registry_at 1)
      (consumed approval)
use_once_refines_example =
    use_once_refines "a1" approval (some 9000000) (iso_text 2) (registry_at 0) (registry_at 1)
      (consumed approval) once

abbrev calls : List (Option ℕ × String)
calls = (some 9000000, iso_text 2) ∷ (some 9000000, iso_text 3) ∷ []

twice : run_uses "a1" approval calls (registry_at 0) ≡ ok (registry_at 1, 1)
unfolding run_uses use_once use_found use_entry use_counted dict_at found_dict value_at count_at
    count_of parse_time get set
twice = refl

fresh : Counts "a1" (pos 0) (registry_at 0)
unfolding entry_of dict_at found_dict count_at count_of get
fresh = record { found = entry_at 0; there = refl; counted = refl }

one_use : count_at "max_uses" approval ≡ ok (pos 1)
unfolding count_at count_of get
one_use = refl

run_uses_bounded_example : pos 0 +ℤ pos 1 ≤ℤ pos 1
run_uses_bounded_example =
    run_uses_bounded "a1" approval (pos 1) one_use calls (pos 0) (registry_at 0) (registry_at 1) 1
      fresh (ground arith) twice

abbrev empty_registry : Dict
empty_registry = dict (("approvals", obj end) ∷ ("nonces", obj end) ∷ [])

abbrev one_registered : Dict
one_registered = dict (
    ("approvals", obj (dict (("a1", obj (entry_at 0)) ∷ [])))
    ∷ ("nonces", obj (dict (("n1", str "a1") ∷ [])))
    ∷ [])

registered : register "n1" "a1" approval empty_registry (iso_text 1) ≡ ok (one_registered, tt)
unfolding register dict_at found_dict contains get set
registered = refl

-- Another approval comes in between, and the first one is used.
abbrev edits : List Edit
edits =
    registration "n2" "a2" approval (iso_text 2) ∷ presented "a1" approval none (iso_text 2) ∷ []

nonce_registered_once_example :
    register "n1" "a3" approval (edit_all edits one_registered) (iso_text 2)
    ≡ err (value_error "approval nonce already registered")
nonce_registered_once_example =
    nonce_registered_once "n1" "a1" "a3" approval approval empty_registry one_registered
      (iso_text 1) (iso_text 2) registered edits
