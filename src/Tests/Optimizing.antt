-- ===== src/Tests/Optimizing.antt =====
-- Runs of optimizer/growth_model.py and growth_ledger.py, and an example for each theorem about them.
use collective_capability_ru.Prelude.{ℕ, String, ◌≡◌, ◌≢◌, ◌↔◌, refl, List, [], ◌∷◌, length}
use collective_capability_ru.Prelude.Int.{pos}
use collective_capability_ru.Prelude.Map.{string_eq, lookup}
use collective_capability_ru.Result.{ok}
use collective_capability_ru.Json.{Json, Dict, null, int}
use collective_capability_ru.Optimizer.Journal.{check_chain}
use collective_capability_ru.Optimizer.Lineage.{Parents, acyclic, cyclic, unfinished, check_lineage}
use collective_capability_ru.Optimizer.Acyclic.{
  check_lineage_finished, check_lineage_iff, IsRanking,
}
use collective_capability_ru.Optimizer.Chained.{Call, append_all, check_chain-append_all}
use collective_capability_ru.Tests.Setup.{test_env}

-- `b` is made of `a`.
abbrev table : Parents
table = ("b", "a" ∷ []) ∷ ("a", []) ∷ []

abbrev declared_assets : List String
declared_assets = "a" ∷ "b" ∷ []

table_acyclic : check_lineage table declared_assets ≡ acyclic
unfolding check_lineage lookup
table_acyclic = refl

-- `a` and `b` are each other's parents, and `c` is of neither.
loop_cyclic :
    check_lineage (("a", "b" ∷ []) ∷ ("b", "a" ∷ []) ∷ ("c", []) ∷ []) ("a" ∷ "b" ∷ "c" ∷ [])
    ≡ cyclic
unfolding check_lineage lookup
loop_cyclic = refl

check_lineage_finished_example : check_lineage table declared_assets ≢ unfinished
check_lineage_finished_example = check_lineage_finished table declared_assets

check_lineage_iff_example :
    (check_lineage table declared_assets ≡ acyclic)
    ↔ ((rank : String → ℕ) × IsRanking table rank declared_assets)
check_lineage_iff_example = check_lineage_iff table declared_assets

abbrev two_calls : List Call
two_calls =
    record { revision = int (pos 1); kind = "lifecycle"; payload = null; current = "T" }
    ∷ record { revision = int (pos 1); kind = "decision"; payload = null; current = "Ti" }
    ∷ []

check_chain-append_all_example :
    (journal : List Dict) × (digest : Json) × (append_all two_calls [] ≡ ok journal)
    × (check_chain 0 null journal ≡ ok digest)
    × (length journal ≡ length two_calls)
check_chain-append_all_example = check_chain-append_all two_calls
