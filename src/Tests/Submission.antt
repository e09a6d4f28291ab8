-- ===== src/Tests/Submission.antt =====
-- An example for tasks/store.py: a task from tasks/factory.py is submitted.
use collective_capability_ru.Json.{nil, end}
use collective_capability_ru.Prelude.{String, ◌≡◌, refl}
use collective_capability_ru.Prelude.Int.{pos}
use collective_capability_ru.Tasks.Factory.{TaskSpec, task_id_of}
use collective_capability_ru.Ids.{stable_id}
use collective_capability_ru.Tests.Setup.{test_env}

abbrev spec : TaskSpec
spec = record {
  kind = "review";
  title = "Review";
  objective = "Check the packet";
  role = "verifier";
  source = "test";
  priority = pos 120;
  inputs = nil;
  extensions = end;
}

abbrev built_id : String
built_id = "task:0123456789abcdef01234567"

abbrev built_name : String
built_name = "task_0123456789abcdef01234567.json"

built_id-lem : task_id_of spec ≡ built_id
unfolding task_id_of stable_id
built_id-lem = refl
