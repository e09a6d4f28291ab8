-- ===== src/Tasks/Scheduler/Ranking.antt =====
-- `candidates.sort(key=...)` and `candidates[0]`.
use Prim.Native.Nat.{Ordering}
use Prim.Native.String.{compare as compare_text}
use collective_capability_ru.Prelude.{
  String, Bool, true, false, Option, none, some, List, [], ◌∷◌, str_eq, if◌then◌else◌,
}
use collective_capability_ru.Json.{Dict, str}
use collective_capability_ru.Json.Fields.{get}
use collective_capability_ru.Json.Python.{get_default}
use collective_capability_ru.Env.{Env, to_text}
use collective_capability_ru.Floats.{Floats}
use collective_capability_ru.Exec.{Exec, pure, ◌>>=◌}
use collective_capability_ru.Tasks.Scheduler.Score.{scheduler_score}

-- A candidate with its key: the negated score, when it was created, its identifier.
pub record Keyed (Number : Type 0) : Type 0 where
  pub score : Number
  pub created : String
  pub id : String
  pub task : Dict

abbrev pub text_lt : String → String → Bool
text_lt s t = elim (compare_text s t) [ Ordering.lt ↦ true | _ ↦ false ]

module _ ⦃floats : Floats⦄ where
  abbrev pub Entry : Type 0
  Entry = Keyed floats.Number

  -- Tuples are compared at the first place where they differ.
  unfoldable pub key_lt : Entry → Entry → Bool
  key_lt a b =
      if floats.eq a.score b.score
      then if str_eq a.created b.created then text_lt a.id b.id else text_lt a.created b.created
      else floats.lt a.score b.score

  unfoldable pub insert_entry : Entry → List Entry → List Entry
  insert_entry x [] = x ∷ []
  insert_entry x (y ∷ ys) =
      let later = insert_entry x ys in if key_lt y x then y ∷ later else x ∷ y ∷ ys

  -- The stable sort by the keys.
  unfoldable pub sort_entries : List Entry → List Entry
  unfolding insert_entry
  sort_entries [] = []
  sort_entries (x ∷ xs) = insert_entry x (sort_entries xs)

  abbrev pub first_task : List Entry → Option Dict
  first_task [] = none
  first_task (x ∷ xs) = some x.task

module _ ⦃env : Env⦄ ⦃floats : Floats⦄ where
  abbrev pub entry_of : floats.Number → Dict → Entry
  entry_of score task = record {
    score = floats.negate score;
    created = to_text (get_default (get "created_at" task) (str ""));
    id = to_text (get_default (get "task_id" task) (str ""));
    task = task;
  }

  -- The key of each candidate, in turn.
  unfoldable pub score_all : List Dict → Exec (List Entry)
  unfolding scheduler_score to_text
  score_all [] = pure []
  score_all (task ∷ tasks) = do
    score ← scheduler_score task
    entries ← score_all tasks
    pure (entry_of score task ∷ entries)

  -- The first candidate of the order, if there is one.
  unfoldable pub choose : List Dict → Exec (Option Dict)
  unfolding score_all sort_entries
  choose candidates = do entries ← score_all candidates; pure (first_task (sort_entries entries))
