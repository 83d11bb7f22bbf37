-- ===== src/Scorer.antt =====
-- benchmark/scorer.py. The proofs are in the modules below.
pub mod Cases
pub mod Bounds
pub mod Totals
pub mod Benchmark
use csharp_llm_benchmark.Prelude.{
  ℕ, String, Option, none, some, List, [], ◌∷◌, map, select, mem, Bool, true, false, ◌==◌,
  string_eq, ◌>>=◌, if◌then◌else◌,
}
use csharp_llm_benchmark.Prelude.Numbers.{Numbers, sum}
use csharp_llm_benchmark.Tasks.Model.{Dict, values, ScoreConfig, Task, available_points}
use csharp_llm_benchmark.Runner.Result.{LlmUsage, GroupResult, TaskRunResult}

pub record TaskScore (N Meta : Type 0) : Type 0 where
  pub task_id : String
  pub status : String
  pub llm_response_time_seconds : N
  pub llm_usage : LlmUsage
  pub earned_points : N
  pub available_points : N
  pub compile_points : N
  pub earned_test_points : N
  pub passed_tests : List String
  pub failed_tests : List String
  pub generator : String
  pub opencode_metadata : Option Meta
  pub temperature : Option N
  pub suite : String
  pub difficulty : Option String
  pub feature_ratio : Option N
  pub regression_ratio : Option N
  pub pi_metadata : Option Meta

pub record BenchmarkScore (N Meta : Type 0) : Type 0 where
  pub earned_points : N
  pub available_points : N
  pub final_score : N
  pub task_scores : List (TaskScore N Meta)

abbrev pub failed_states : List String
failed_states = "extraction_error" ∷ "build_failed" ∷ "infrastructure_error" ∷ []

-- `groups.get(name, {}).get("passed_tests", ())`
unfoldable pub group_passed : Option (Dict GroupResult) → String → List String
group_passed none name = []
group_passed (some []) name = []
group_passed (some ((k, g) ∷ groups)) name =
    if k == name then g.passed_tests else group_passed (some groups) name

module _ {N : Type 0} (num : Numbers N) where
  -- The points of the tests that passed.
  unfoldable pub points_of : List String → Dict N → N
  points_of passed tests = sum num (values (select (λ (name, _). mem name passed) tests))

  -- `sum(...) / sum(weights.values())`; `none` is a ZeroDivisionError.
  unfoldable pub ratio : List String → Dict N → Option N
  unfolding points_of
  ratio passed weights =
      let total = sum num (values weights) in
      if num.same total (num.of_ℕ 0) then none else some (num.div (points_of passed weights) total)

  -- `round((earned / available) * 100, 2) if available else 0.0`
  abbrev pub percent : N → N → N
  percent available earned =
      if num.same available (num.of_ℕ 0)
      then num.of_ℕ 0
      else num.round (num.mul (num.div earned available) (num.of_ℕ 100))

  module _ {Meta : Type 0} where
    -- The fields that every branch copies from the task and its result.
    unfoldable pub base_score : Task N → TaskRunResult N Meta → N → N → N → TaskScore N Meta
    unfolding available_points
    base_score task result earned compile earned_tests = record {
      task_id = task.id;
      status = result.status;
      llm_response_time_seconds = result.llm_response_time_seconds;
      llm_usage = result.llm_usage;
      earned_points = earned;
      available_points = available_points num task.score;
      compile_points = compile;
      earned_test_points = earned_tests;
      passed_tests = result.passed_tests;
      failed_tests = result.failed_tests;
      generator = result.generator;
      opencode_metadata = result.opencode_metadata;
      temperature = result.temperature;
      suite = "greenfield";
      difficulty = none;
      feature_ratio = none;
      regression_ratio = none;
      pi_metadata = result.pi_metadata;
    }

    unfoldable pub evolution_score : Task N → TaskRunResult N Meta → N → N → TaskScore N Meta
    unfolding base_score available_points
    evolution_score task result feature regression =
        let earned = num.mul (num.mul (available_points num task.score) feature) regression in
        let base = base_score task result earned (num.of_ℕ 0) earned in
        record base {
          suite = task.suite;
          difficulty = some task.difficulty;
          feature_ratio = some feature;
          regression_ratio = some regression;
        }

    -- `none` is a ZeroDivisionError.
    unfoldable pub score_task : Task N → TaskRunResult N Meta → Option (TaskScore N Meta)
    unfolding base_score evolution_score ratio points_of group_passed
    score_task task result =
        let failed = mem result.status failed_states in
        let earned_test_points = points_of result.passed_tests task.score.tests in
        let evolution = (do
          feature ← ratio (group_passed result.test_group_results "feature") task.score.tests
          regression ←
              ratio (group_passed result.test_group_results "regression") task.score.regression
          some (evolution_score task result feature regression)) in
        if task.suite == "evolution"
        then (if failed
            then some (evolution_score task result (num.of_ℕ 0) (num.of_ℕ 0))
            else evolution)
        else if failed
        then some (base_score task result (num.of_ℕ 0) (num.of_ℕ 0) (num.of_ℕ 0))
        else some (
            base_score task result (num.add task.score.compile earned_test_points)
              task.score.compile earned_test_points)

    unfoldable pub score_benchmark : List (TaskScore N Meta) → BenchmarkScore N Meta
    score_benchmark task_scores =
        let earned = sum num (map (λ (s : TaskScore N Meta). s.earned_points) task_scores) in
        let available = sum num (map (λ (s : TaskScore N Meta). s.available_points) task_scores) in
        record {
          earned_points = earned;
          available_points = available;
          final_score = percent available earned;
          task_scores = task_scores;
        }
