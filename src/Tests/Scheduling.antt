-- ===== src/Tests/Scheduling.antt =====
-- Runs of tasks/scheduler.py, with whole numbers in the place of floats.
use collective_capability_ru.Prelude.{
  String, ◌≡◌, refl, none, some, List, [], ◌∷◌, arith, not, zero, suc,
}
use collective_capability_ru.Prelude.Int.{ℤ, pos, negsuc, leb_ℤ}
use collective_capability_ru.Prelude.Text.{ends_with}
use collective_capability_ru.Result.{ok}
use collective_capability_ru.Json.{Json, Dict, int, str, arr, obj, dict, strings}
use collective_capability_ru.Json.Fields.{get}
use collective_capability_ru.Exec.{World, ◌>>=◌}
use collective_capability_ru.Exec.Laws.{Ends, Same}
use collective_capability_ru.Tasks.{task_file}
use collective_capability_ru.Tasks.Scheduler.{iter_tasks, completed_ids, next_task}
use collective_capability_ru.Tasks.Scheduler.Ranking.{key_lt}
use collective_capability_ru.Tasks.Scheduler.Order.{IsOrdered}
use collective_capability_ru.Tasks.Scheduler.Choice.{Answer, next_task_refines}
use collective_capability_ru.Tests.Numbers.{test_floats, opposite}
use collective_capability_ru.Tests.Setup.{test_env, world_of}

opposite_turned : (x y : ℤ) → not (leb_ℤ (opposite y) (opposite x)) ≡ not (leb_ℤ x y)
opposite_turned (pos zero) (pos zero) = refl
opposite_turned (pos zero) (pos (suc m)) = ground arith
opposite_turned (pos (suc n)) (pos zero) = ground arith
opposite_turned (pos (suc n)) (pos (suc m)) = ground arith
opposite_turned (pos zero) (negsuc m) = ground arith
opposite_turned (pos (suc n)) (negsuc m) = ground arith
opposite_turned (negsuc n) (pos zero) = ground arith
opposite_turned (negsuc n) (pos (suc m)) = ground arith
opposite_turned (negsuc n) (negsuc m) = ground arith

test_floats-IsOrdered : IsOrdered test_floats
test_floats-IsOrdered = record {
  asym = λ x y h. ground arith;
  trans = λ x y z h k. ground arith;
  connected = λ x y. ground arith;
  negated = opposite_turned;
}

abbrev task_of : String → Json → Dict
task_of id priority = dict (
    ("task_id", str id)
    ∷ ("role", str "verifier")
    ∷ ("status", str "open")
    ∷ ("priority", priority)
    ∷ ("dependencies", arr (strings []))
    ∷ [])

-- Two open tasks, and one that waits for the first of them.
abbrev queue_world : World
queue_world =
    world_of
      ((task_file "open" "a.json", obj (task_of "a" (int (pos 10))))
        ∷ (task_file "open" "b.json", obj (task_of "b" (int (pos 70))))
        ∷ (
          task_file "open" "c.json",
          obj (
              dict (
                ("task_id", str "c")
                ∷ ("role", str "verifier")
                ∷ ("status", str "open")
                ∷ ("priority", int (pos 90))
                ∷ ("dependencies", arr (strings ("a" ∷ [])))
                ∷ [])),
        )
        ∷ [])
      []

next_task_refines_example :
    Ends
      (λ answer w'.
        Same queue_world w'
        × ((completed : List String) × (completed_ids (iter_tasks none queue_world) ≡ ok completed)
            × Answer "verifier" completed queue_world answer))
      (λ _ w'. Same queue_world w')
      (next_task "verifier" queue_world)
next_task_refines_example = next_task_refines test_floats-IsOrdered "verifier" queue_world

highest_first : (next_task "verifier" queue_world).0 ≡ ok (some (task_of "b" (int (pos 70))))
unfolding next_task get ◌>>=◌ ends_with key_lt
highest_first = refl
