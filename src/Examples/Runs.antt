-- ===== src/Examples/Runs.antt =====
-- The theorems on benchmark/runner.py at an evaluation in which every command succeeds.
use csharp_llm_benchmark.Prelude.{
  ◌≡◌, refl, String, ℕ, some, [], ◌∷◌, mem, not, ◌&&◌, ◌||◌, string_eq, true, false,
}
use csharp_llm_benchmark.Prelude.Int.{pos}
use csharp_llm_benchmark.Prelude.Numbers.{nat_numbers, nat_order_laws, nat_ratio_laws}
use csharp_llm_benchmark.Tasks.Model.{available_points}
use csharp_llm_benchmark.Runner.Result.{GroupResult, TaskRunResult}
use csharp_llm_benchmark.Runner.Docker.{
  Machine, exec_in_container, copy_results_from_container, run_docker_command,
}
use csharp_llm_benchmark.Runner.Trx.{Results, parse_trx_results}
use csharp_llm_benchmark.Runner.Evaluate.{evaluate}
use csharp_llm_benchmark.Runner.Groups.{
  returned, put_group, test_group, evaluate_group, evaluate_groups, evaluate_test_groups,
  groups_result, no_groups, settle_group, settle_groups,
}
use csharp_llm_benchmark.Runner.Evaluate.Verdict.{OnReturn, IsJustified, evaluate-IsJustified}
use csharp_llm_benchmark.Runner.Evaluate.Settle.{SortLaw, expected, settle_group-mem}
use csharp_llm_benchmark.Runner.Evaluate.FullMarks.{passed_earns_all}
use csharp_llm_benchmark.Scorer.{TaskScore, evolution_score, score_task}
use csharp_llm_benchmark.Scorer.Bounds.{IsWeighted}
use csharp_llm_benchmark.Examples.Data.{
  score_of, evolution_task, plain_strings, good_world, setting, delivery, idle, good_build,
}

evaluate-IsJustified_example :
    OnReturn good_world setting evolution_task delivery
      (IsJustified good_world setting evolution_task delivery)
      (evaluate good_world setting evolution_task delivery idle).0
evaluate-IsJustified_example = evaluate-IsJustified good_world setting evolution_task delivery idle

sort_law : SortLaw plain_strings
sort_law = record { same_members = λ x l. refl }

abbrev half_passed : Results
half_passed = record { passed = "Adds" ∷ []; failed = "Breaks" ∷ [] }

abbrev ran_group : GroupResult
ran_group = record {
  build_exit_code = pos 0;
  test_exit_code = some (pos 1);
  passed_tests = [];
  failed_tests = [];
}

abbrev settled_group : GroupResult
settled_group =
    settle_group good_world setting evolution_task delivery "feature" half_passed ran_group

settle_group-mem_example :
    (mem "Adds" settled_group.passed_tests
      ≡ (true && mem "Adds" half_passed.passed && not (mem "Adds" settled_group.failed_tests)))
    × (mem "Adds" settled_group.failed_tests ≡ (
        true && mem "Adds" half_passed.failed
        || mem "Adds" (expected good_world setting evolution_task delivery sort_law "feature")
          && not (true && mem "Adds" half_passed.passed)))
    × ((mem "Adds" settled_group.passed_tests && mem "Adds" settled_group.failed_tests) ≡ false)
    × ((not (mem "Adds" (expected good_world setting evolution_task delivery sort_law "feature"))
          || (mem "Adds" settled_group.passed_tests || mem "Adds" settled_group.failed_tests))
        ≡ true)
settle_group-mem_example =
    settle_group-mem good_world setting evolution_task delivery sort_law "feature" half_passed
      ran_group "Adds"

score_of-IsWeighted : IsWeighted nat_numbers nat_order_laws (score_of 0)
unfolding available_points
score_of-IsWeighted = record {
  compile = refl;
  tests = (refl, tt);
  regression = (refl, tt);
  finite_points = refl;
  finite_regression = refl;
}

abbrev after_groups : Machine
after_groups = (evaluate_test_groups good_world setting evolution_task delivery good_build idle).1

abbrev groups_outcome : TaskRunResult ℕ String
groups_outcome =
    groups_result good_world setting evolution_task delivery good_build
      (evaluate_groups good_world setting evolution_task delivery evolution_task.test_groups
        (no_groups good_world setting evolution_task delivery) idle).0
      good_build after_groups

groups_return :
    evaluate_test_groups good_world setting evolution_task delivery good_build idle
    ≡ (returned groups_outcome, after_groups)
unfolding evaluate_test_groups copy_results_from_container
groups_return = refl

groups_passed : groups_outcome.status ≡ "passed"
unfolding evaluate_test_groups copy_results_from_container groups_result settle_groups
    evaluate_groups evaluate_group test_group put_group exec_in_container run_docker_command
    settle_group parse_trx_results
groups_passed = refl

abbrev full_score : TaskScore ℕ String
full_score = evolution_score nat_numbers evolution_task groups_outcome 1 1

groups_score : score_task nat_numbers evolution_task groups_outcome ≡ some full_score
unfolding score_task evaluate_test_groups copy_results_from_container groups_result settle_groups
    evaluate_groups evaluate_group test_group put_group exec_in_container run_docker_command
    settle_group parse_trx_results
groups_score = refl

passed_earns_all_example :
    full_score.earned_points ≡ available_points nat_numbers evolution_task.score
passed_earns_all_example =
    passed_earns_all good_world setting evolution_task delivery sort_law nat_numbers nat_order_laws
      nat_ratio_laws good_build idle after_groups groups_outcome full_score score_of-IsWeighted refl
      refl refl groups_return groups_passed groups_score
