-- ===== src/Examples/Scores.antt =====
-- The theorems on scores, validation and discovery at concrete tasks and runs.
use csharp_llm_benchmark.Prelude.{
  set?, leb, Option, ℕ, ◌≡◌, ◌↔◌, refl, String, none, some, List, [], ◌∷◌, mem, ◌&&◌, ◌||◌, ◌==◌,
  string_eq, true, All, arith, Bool,
}
use csharp_llm_benchmark.Prelude.Numbers.{nat_numbers, nat_order_laws, nat_ratio_laws}
use csharp_llm_benchmark.Prelude.Order.{nat_comparison_laws}
use csharp_llm_benchmark.Tasks.Model.{Task, available_points}
use csharp_llm_benchmark.Tasks.Validate.{
  validate_tasks, validate_from, task_errors, file_errors, score_errors, role_errors, path_errors,
  suite_errors, evolution_errors, weight_errors,
}
use csharp_llm_benchmark.Tasks.Paths.{relative_path}
use csharp_llm_benchmark.Tasks.Validate.Sound.{HasDistinctIds, validated_scores}
use csharp_llm_benchmark.Runner.Result.{TaskRunResult}
use csharp_llm_benchmark.Scorer.{
  TaskScore, points_of, percent, base_score, score_task, score_benchmark,
}
use csharp_llm_benchmark.Scorer.Bounds.{IsWithin, IsWeighted, score_task_bounds}
use csharp_llm_benchmark.Scorer.Totals.{
  is_zero_total, is_evaluated, score_task_fails_iff, score_task_full,
}
use csharp_llm_benchmark.Scorer.Benchmark.{final_score_bounds}
use csharp_llm_benchmark.Discovery.{
  TemperatureRun, select_best_temperature_run, payload_selected_temperature,
}
use csharp_llm_benchmark.Discovery.Reuse.{is_foreign, load_existing_task_score}
use csharp_llm_benchmark.Discovery.Reuse.Exact.{IsReusable, load_existing_task_score_iff}
use csharp_llm_benchmark.Discovery.Best.{ScaleLaw, payload_agrees}
use csharp_llm_benchmark.Examples.Data.{
  plain_paths, score_of, greenfield_task, evolution_task, passed_result,
}

abbrev everything_exists : String → Bool
everything_exists path = true

valid_list : validate_tasks nat_numbers plain_paths everything_exists (evolution_task ∷ []) ≡ []
unfolding validate_tasks validate_from task_errors file_errors score_errors role_errors path_errors
    suite_errors evolution_errors weight_errors available_points relative_path
valid_list = refl

validated_scores_example :
    HasDistinctIds nat_numbers plain_paths everything_exists [] (evolution_task ∷ [])
    × All
        (λ task. (s : TaskScore ℕ String) × (score_task nat_numbers task passed_result ≡ some s))
        (evolution_task ∷ [])
validated_scores_example =
    validated_scores nat_numbers plain_paths everything_exists nat_order_laws (evolution_task ∷ [])
      passed_result valid_list

weighted : (compile : ℕ) → IsWeighted nat_numbers nat_order_laws (score_of compile)
unfolding available_points
weighted compile = record {
  compile = ground arith;
  tests = (refl, tt);
  regression = (refl, tt);
  finite_points = refl;
  finite_regression = refl;
}

abbrev greenfield_score : TaskScore ℕ String
greenfield_score = base_score nat_numbers greenfield_task passed_result 70 10 60

scores_greenfield : score_task nat_numbers greenfield_task passed_result ≡ some greenfield_score
unfolding score_task points_of
scores_greenfield = refl

score_task_bounds_example :
    IsWithin nat_numbers nat_order_laws greenfield_score.earned_points
      (available_points nat_numbers greenfield_task.score)
    × (greenfield_score.available_points ≡ available_points nat_numbers greenfield_task.score)
score_task_bounds_example =
    score_task_bounds nat_numbers nat_order_laws nat_ratio_laws greenfield_task passed_result
      greenfield_score (weighted 10) scores_greenfield

score_task_fails_iff_example : (score_task nat_numbers evolution_task passed_result ≡ none) ↔ (
    (((evolution_task.suite == "evolution")
        && is_evaluated nat_numbers evolution_task passed_result)
      && (is_zero_total nat_numbers evolution_task passed_result evolution_task.score.tests
          || is_zero_total nat_numbers evolution_task passed_result
              evolution_task.score.regression))
    ≡ true)
score_task_fails_iff_example = score_task_fails_iff nat_numbers evolution_task passed_result

passed_result-All : All (λ k. mem k passed_result.passed_tests ≡ true) ("Adds" ∷ [])
passed_result-All = (refl, tt)

score_task_full_example :
    greenfield_score.earned_points ≡ available_points nat_numbers greenfield_task.score
score_task_full_example =
    score_task_full nat_numbers nat_order_laws nat_ratio_laws greenfield_task passed_result
      greenfield_score (weighted 10) refl (λ _. passed_result-All)
      (λ e. absurd (ground (arith, string_eq.beq_iff "greenfield" "evolution"))) scores_greenfield

abbrev one_run : List (Task ℕ × TaskRunResult ℕ String)
one_run = (greenfield_task, passed_result) ∷ []

final_score_bounds_example :
    IsWithin nat_numbers nat_order_laws
      (score_benchmark nat_numbers (greenfield_score ∷ [])).final_score
      100
final_score_bounds_example =
    final_score_bounds nat_numbers nat_order_laws nat_ratio_laws one_run (greenfield_score ∷ [])
      (weighted 10, tt) (scores_greenfield, tt) refl

abbrev run_of : ℕ → ℕ → TemperatureRun ℕ String
run_of temperature earned = record {
  temperature = temperature;
  score = record {
    earned_points = earned;
    available_points = 10;
    final_score = percent nat_numbers 10 earned;
    task_scores = [];
  };
  task_scores = [];
}

abbrev two_runs : List (TemperatureRun ℕ String)
two_runs = run_of 0 3 ∷ run_of 1 7 ∷ []

selects_second : select_best_temperature_run nat_numbers two_runs ≡ some (run_of 1 7)
unfolding select_best_temperature_run
selects_second = refl

nat_scale : ScaleLaw nat_numbers 10
nat_scale = record { same_percent = λ a b p h. grind arith }

payload_agrees_example : payload_selected_temperature nat_numbers two_runs ≡ some 1
payload_agrees_example =
    payload_agrees nat_numbers nat_comparison_laws 10 nat_scale two_runs (run_of 1 7)
      ((refl, (refl, (refl, (refl, tt)))), ((refl, (refl, (refl, (refl, tt)))), tt)) selects_second

abbrev hash : Task ℕ → String
hash task = "sha"

reuses :
    load_existing_task_score nat_numbers hash leb none 1 greenfield_task passed_result 1
      (none ∷ none ∷ [])
    ≡ some (none ∷ some greenfield_score ∷ [])
unfolding load_existing_task_score is_foreign score_task points_of
reuses = refl

load_existing_task_score_iff_example :
    (load_existing_task_score nat_numbers hash leb none 1 greenfield_task passed_result 1
        (none ∷ none ∷ [])
      ≡ some (none ∷ some greenfield_score ∷ []))
    ↔ ((r : IsReusable nat_numbers hash leb none 1 greenfield_task passed_result) × (s : TaskScore ℕ
          String)
        × (score_task nat_numbers greenfield_task
              (record passed_result { temperature = some r.temperature })
            ≡ some s)
        × (set? {A = Option (TaskScore ℕ String)} (none ∷ none ∷ []) 1 (some s)
            ≡ some (none ∷ some greenfield_score ∷ [])))
load_existing_task_score_iff_example =
    load_existing_task_score_iff nat_numbers hash leb none 1 greenfield_task passed_result 1
      (none ∷ none ∷ []) (none ∷ some greenfield_score ∷ [])
