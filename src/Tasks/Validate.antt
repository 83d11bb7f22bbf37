-- ===== src/Tasks/Validate.antt =====
-- benchmark/tasks.py: `validate_tasks`. Whether a file exists is a parameter.
pub mod Sound
use csharp_llm_benchmark.Prelude.{
  is_empty, ℕ, String, Option, none, some, List, [], ◌∷◌, ◌++◌, map, Bool, true, false, not, ◌&&◌,
  ◌||◌, ◌==◌, string_eq, nat_eq, length, mem, any, all, if◌then◌else◌,
}
use csharp_llm_benchmark.Prelude.Numbers.{Numbers}
use csharp_llm_benchmark.Tasks.Model.{
  Dict, keys, values, ScoreConfig, Task, TestGroup, available_points,
}
use csharp_llm_benchmark.Tasks.Paths.{PathLib, relative_path}

abbrev pub supported_suites : List String
supported_suites = "greenfield" ∷ "evolution" ∷ []

pub data TaskError : Type 0 where
  duplicate_id missing_prompt missing_template missing_tests score_not_positive : TaskError
  invalid_suite_or_role missing_build_project wrong_test_groups wrong_weights : TaskError
  repeated_test_name weight_not_finite test_weight_not_positive : TaskError
  missing_template_file missing_hidden_test unsafe_path : String → TaskError

-- `if test: errors.append(error)`
abbrev pub when : Bool → TaskError → List TaskError
when test error = if test then error ∷ [] else []

-- `for name in names: if test(name): errors.append(error(name))`
abbrev pub for_each : (String → Bool) → (String → TaskError) → List String → List TaskError
for_each test error [] = []
for_each test error (name ∷ names) = when (test name) (error name) ++ for_each test error names

abbrev pub is_none : Option String → Bool
is_none none = true
is_none (some x) = false

-- `task.build_project not in task.public_files`
abbrev pub lists_project : Option String → List String → Bool
lists_project none files = false
lists_project (some project) files = mem project files

abbrev pub same_set : List String → List String → Bool
same_set xs ys = all (λ x. mem x ys) xs && all (λ y. mem y xs) ys

module _ {N : Type 0} (num : Numbers N) (lib : PathLib) (exists : String → Bool) where
  unfoldable pub file_errors : Task N → List TaskError
  file_errors task =
      when (not (exists task.prompt_path)) missing_prompt
      ++ (when (not (exists task.template_dir)) missing_template
          ++ (when (not (exists task.tests_dir)) missing_tests
              ++ (for_each (λ f. not (exists (lib.join task.template_dir f))) missing_template_file
                    task.public_files
                  ++ for_each (λ f. not (exists (lib.join task.tests_dir f))) missing_hidden_test
                      task.hidden_tests)))

  unfoldable pub evolution_errors : Task N → List TaskError
  evolution_errors task =
      when
        (is_empty task.editable_files || not (lists_project task.build_project task.public_files))
        missing_build_project
      ++ (when
            (not (
                same_set (map (λ (g : TestGroup). g.name) task.test_groups)
                  ("feature" ∷ "regression" ∷ []))
              || not (length task.test_groups == 2))
            wrong_test_groups
          ++ (when
                (not (num.same task.score.compile (num.of_ℕ 0))
                  || is_empty task.score.tests
                  || is_empty task.score.regression)
                wrong_weights
              ++ when (any (λ name. mem name (keys task.score.regression)) (keys task.score.tests))
                  repeated_test_name))

  unfoldable pub weight_errors : Task N → List TaskError
  weight_errors task =
      let tests = values task.score.tests ++ values task.score.regression in
      when (any (λ w. not (num.finite w) || num.lt w (num.of_ℕ 0)) (task.score.compile ∷ tests))
        weight_not_finite
      ++ when (any (λ w. num.le w (num.of_ℕ 0)) tests) test_weight_not_positive

  unfoldable pub score_errors : Task N → List TaskError
  unfolding available_points
  score_errors task =
      when (num.le (available_points num task.score) (num.of_ℕ 0)) score_not_positive

  unfoldable pub role_errors : Task N → List TaskError
  role_errors task =
      when
        (not (mem task.suite supported_suites) || not (mem task.role ("scored" ∷ "discovery" ∷ [])))
        invalid_suite_or_role

  unfoldable pub path_errors : Task N → List TaskError
  unfolding relative_path
  path_errors task =
      for_each (λ path. is_none (relative_path lib path)) unsafe_path
        (task.public_files ++ task.hidden_tests)

  unfoldable pub suite_errors : Task N → List TaskError
  suite_errors task = if task.suite == "evolution" then evolution_errors task else []

  -- The errors of one task, apart from a repeated id.
  unfoldable pub task_errors : Task N → List TaskError
  task_errors task =
      file_errors task
      ++ (score_errors task
          ++ (role_errors task ++ (path_errors task ++ (suite_errors task ++ weight_errors task))))

  unfoldable pub validate_from : List String → List (Task N) → List (String × TaskError)
  validate_from seen_ids [] = []
  validate_from seen_ids (task ∷ tasks) =
      map (λ e. (task.id, e)) (when (mem task.id seen_ids) duplicate_id ++ task_errors task)
      ++ validate_from (task.id ∷ seen_ids) tasks

  unfoldable pub validate_tasks : List (Task N) → List (String × TaskError)
  unfolding validate_from
  validate_tasks tasks = validate_from [] tasks
