-- ===== src/Discovery/Reuse.antt =====
-- benchmark/cli.py: `_load_existing_task_score`, on a result that was read. The rows of the dashboard
-- are left out.
pub mod Exact
use csharp_llm_benchmark.Prelude.{
  ℕ, ◌≡◌, String, Option, none, some, List, set?, arith, Bool, true, false, not, ◌&&◌, ◌||◌, ◌==◌,
  string_eq, ◌>>=◌, Bool-cases, inl, inr, bind_inv, refl, sym, ◌⊎◌, ◌↔◌, if◌then◌else◌,
}
use csharp_llm_benchmark.Prelude.Numbers.{Numbers}
use csharp_llm_benchmark.Tasks.Model.{Task}
use csharp_llm_benchmark.Runner.Result.{TaskRunResult}
use csharp_llm_benchmark.Scorer.{TaskScore, score_task}

-- `expected is not None and actual != expected`
abbrev pub is_other : String → Option String → Bool
is_other actual none = false
is_other actual (some expected) = not (actual == expected)

-- `actual != expected`, where `actual` may be None
abbrev pub differs : Option String → String → Bool
differs none expected = true
differs (some actual) expected = not (actual == expected)

module _ {N : Type 0} (num : Numbers N) (fingerprint : Task N → String)
    (same_temperature : N → N → Bool) (expected_generator : Option String)
    (expected_temperature : N) where
  abbrev pub is_other_temperature : Option N → Bool
  is_other_temperature none = false
  is_other_temperature (some temperature) = not (same_temperature temperature expected_temperature)

  abbrev pub fill : Option N → N
  fill none = expected_temperature
  fill (some temperature) = temperature

  module _ {Meta : Type 0} where
    -- The checks, each of which raises a ValueError.
    unfoldable pub is_foreign : Task N → TaskRunResult N Meta → Bool
    is_foreign task result =
        not (result.suite == task.suite)
        || (is_other result.generator expected_generator
            || (task.suite == "evolution" && differs result.task_fingerprint (fingerprint task)
                || (not (result.task_id == task.id) || is_other_temperature result.temperature)))

    abbrev pub with_temperature : TaskRunResult N Meta → TaskRunResult N Meta
    with_temperature result = record result { temperature = some (fill result.temperature) }

    -- `none` is an exception.
    unfoldable pub load_existing_task_score :
        Task N
        → TaskRunResult N Meta
        → ℕ
        → List (Option (TaskScore N Meta))
        → Option (List (Option (TaskScore N Meta)))
    unfolding is_foreign
    load_existing_task_score task result task_index task_scores =
        let scored = (do
          task_score ← score_task num task (with_temperature result)
          set? task_scores task_index (some task_score)) in
        if is_foreign task result then none else scored
