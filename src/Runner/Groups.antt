-- ===== src/Runner/Groups.antt =====
-- benchmark/runner.py: what `DockerRunner.evaluate` is given and returns, and
-- `_evaluate_test_groups`.
use csharp_llm_benchmark.Prelude.{
  String, ◌<>◌, Option, none, some, List, [], ◌∷◌, map, Bool, true, false, not, ◌&&◌, ◌||◌, ◌==◌,
  string_eq, any, all, if◌then◌else◌,
}
use csharp_llm_benchmark.Prelude.Int.{ℤ, pos, int_eq}
use csharp_llm_benchmark.Source.Extract.{ExtractedCode}
use csharp_llm_benchmark.Tasks.Model.{Dict, keys, Task, TestGroup}
use csharp_llm_benchmark.Runner.Result.{LlmUsage, CommandResult, GroupResult, TaskRunResult}
use csharp_llm_benchmark.Runner.Docker.{
  DockerConfig, World, Machine, write_log, log, succeeded, is_docker_failure, exec_in_container,
  copy_results_from_container,
}
use csharp_llm_benchmark.Runner.Trx.{Strings, Results, parse_trx_results, union, minus, no_results}

-- The arguments of `evaluate` that come from the generation. `Snapshot` is the type of project
-- deliveries.
pub record Delivery (N Meta Snapshot : Type 0) : Type 0 where
  pub extracted_code : ExtractedCode
  pub llm_response_time_seconds : N
  pub llm_usage : LlmUsage
  pub generator : String
  pub opencode_metadata : Option Meta
  pub pi_metadata : Option Meta
  pub temperature : Option N
  pub generation_infrastructure_error : Option String
  pub project_snapshot : Option Snapshot

-- What a call returns, or the message of the exception that it raises.
pub data Outcome (A : Type 0) : Type 0 where
  returned : A → Outcome A
  raised : String → Outcome A

abbrev pub is_missing {ℓ} : {A : Type ℓ} → Option A → Bool
is_missing none = true
is_missing (some a) = false

-- What `evaluate` takes from elsewhere: `task_fingerprint`, whether `restore_project` accepts a
-- delivery, and the name of the temporary directory.
pub record Setting (N Snapshot : Type 0) : Type 0 where
  pub config : DockerConfig
  pub strings : Strings
  pub task_fingerprint : Task N → String
  pub restores : Task N → Snapshot → Bool
  pub workdir_name : String

module _ {N Meta Snapshot : Type 0} (w : World) (s : Setting N Snapshot) (task : Task N)
    (d : Delivery N Meta Snapshot) where
  abbrev pub fingerprint : Option String
  fingerprint = if task.suite == "evolution" then some (s.task_fingerprint task) else none

  -- The fields that every result shares, and no tests.
  abbrev pub result : String → TaskRunResult N Meta
  result status = record {
    task_id = task.id;
    status = status;
    llm_response_time_seconds = d.llm_response_time_seconds;
    llm_usage = d.llm_usage;
    workdir = none;
    build = none;
    test = none;
    passed_tests = [];
    failed_tests = [];
    extraction_warnings = d.extracted_code.warnings;
    extraction_error = none;
    infrastructure_error = none;
    generator = d.generator;
    opencode_metadata = d.opencode_metadata;
    pi_metadata = d.pi_metadata;
    temperature = d.temperature;
    suite = task.suite;
    task_fingerprint = fingerprint;
    test_group_results = none;
  }

  unfoldable pub infrastructure_result :
      CommandResult → String → Option CommandResult → TaskRunResult N Meta
  infrastructure_result build message test =
      let base = result "infrastructure_error" in
      record base {
        workdir = some s.workdir_name;
        build = some build;
        test = test;
        extraction_warnings = [];
        infrastructure_error = some message;
      }

  abbrev pub container_name : String
  container_name = "csharp-llm-benchmark-" <> s.workdir_name

  abbrev pub container_workdir : String
  container_workdir = "/workspace/" <> s.workdir_name

  -- `_prepare_workspace`: an evolution task wants a delivery that `restore_project` accepts. Another
  -- task is delivered as code; writing none is a TypeError.
  unfoldable pub prepare_workspace : Outcome Unit
  prepare_workspace =
      let written : Outcome Unit = elim d.extracted_code.code [
        | none ↦ raised "data must be str, not NoneType"
        | some code ↦ returned tt
      ] in
      if not (task.suite == "evolution") then written else elim d.project_snapshot [
        | none ↦ raised "Evolution evaluation requires a project delivery"
        | some snapshot ↦
            if s.restores task snapshot then returned tt else raised "Invalid project delivery"
      ]

  -- The variables of the loop of `_evaluate_test_groups`.
  pub record Groups : Type 0 where
    pub groups : Dict GroupResult
    pub infrastructure_error : Option String
    pub last_test : Option CommandResult

  -- `groups[name] = value`
  unfoldable pub put_group : String → GroupResult → Dict GroupResult → Dict GroupResult
  put_group name value [] = (name, value) ∷ []
  put_group name value ((k, v) ∷ groups) =
      if k == name then (name, value) ∷ groups else (k, v) ∷ put_group name value groups

  abbrev pub exit_code_of : Option CommandResult → Option ℤ
  exit_code_of none = none
  exit_code_of (some test) = some test.exit_code

  abbrev pub could_not_run : CommandResult → Bool
  could_not_run command = command.timed_out || is_docker_failure command

  abbrev pub test_could_not_run : Option CommandResult → Bool
  test_could_not_run none = false
  test_could_not_run (some test) = could_not_run test

  -- The tests of a group, run only if they were built.
  unfoldable pub test_group : TestGroup → CommandResult → Machine → Option CommandResult × Machine
  test_group group build m =
      let (test, m') =
        exec_in_container w s.config container_name container_workdir group.test_command m in
      if succeeded build && not build.timed_out
      then (some test, log m' (write_log (group.name <> "-test.log")))
      else (none, m)

  unfoldable pub evaluate_group : TestGroup → Groups → Machine → Groups × Machine
  unfolding test_group put_group
  evaluate_group group g m =
      let (build, m1) =
        exec_in_container w s.config container_name container_workdir group.build_command m in
      let (test, m2) = test_group group build (log m1 (write_log (group.name <> "-build.log"))) in
      (
        record {
          groups =
              put_group group.name
                (record {
                  build_exit_code = build.exit_code;
                  test_exit_code = exit_code_of test;
                  passed_tests = [];
                  failed_tests = [];
                })
                g.groups;
          infrastructure_error =
              if could_not_run build || test_could_not_run test
              then some (group.name <> " evaluation command timed out or could not start.")
              else g.infrastructure_error;
          last_test = if is_missing test then g.last_test else test;
        },
        m2,
      )

  unfoldable pub evaluate_groups : List TestGroup → Groups → Machine → Groups × Machine
  evaluate_groups [] g m = (g, m)
  evaluate_groups (group ∷ groups) g m =
      let (g', m') = evaluate_group group g m in evaluate_groups groups g' m'

  -- The tests of a group that passed and those that did not; `files` are its result files.
  unfoldable pub settle_group : String → Results → GroupResult → GroupResult
  settle_group name parsed group =
      let r = if is_missing group.test_exit_code then no_results else parsed in
      let expected = keys (if name == "feature" then task.score.tests else task.score.regression) in
      let failed = union r.failed (minus expected r.passed) in
      let passed = minus r.passed failed in
      record group {
        passed_tests = s.strings.sorted passed;
        failed_tests = s.strings.sorted failed;
      }

  unfoldable pub settle_groups : Machine → Dict GroupResult → Dict GroupResult
  unfolding settle_group
  settle_groups m groups =
      map
        (λ (name, group). (
          name,
          settle_group name
              (parse_trx_results s.strings (w.result_files m.events ("TestResults/" <> name)))
              group,
        ))
        groups

  abbrev pub all_tests : (GroupResult → List String) → Dict GroupResult → List String
  all_tests f [] = []
  all_tests f ((_, group) ∷ groups) = union (f group) (all_tests f groups)

  abbrev pub is_zero_exit : Option ℤ → Bool
  is_zero_exit none = false
  is_zero_exit (some code) = code == pos 0

  abbrev pub is_nil : List String → Bool
  is_nil [] = true
  is_nil (x ∷ xs) = false

  -- The end of `_evaluate_test_groups`, once the results are copied.
  unfoldable pub groups_result :
      CommandResult → Groups → CommandResult → Machine → TaskRunResult N Meta
  unfolding settle_groups
  groups_result build g copied m =
      let infrastructure_error =
        if not (succeeded copied)
          && any (λ (_, group). not (is_missing group.test_exit_code)) g.groups
        then some "Docker could not copy group test results out of the container."
        else g.infrastructure_error in
      let groups = settle_groups m g.groups in
      let all_failed = all_tests (λ r. r.failed_tests) groups in
      let status =
        if not (is_missing infrastructure_error)
        then "infrastructure_error"
        else if is_nil all_failed && all (λ (_, group). is_zero_exit group.test_exit_code) groups
        then "passed"
        else "tests_failed" in
      let base = result status in
      record base {
        workdir = some s.workdir_name;
        build = some build;
        test = g.last_test;
        passed_tests = s.strings.sorted (all_tests (λ r. r.passed_tests) groups);
        failed_tests = s.strings.sorted all_failed;
        infrastructure_error = infrastructure_error;
        test_group_results = some groups;
      }

  abbrev pub no_groups : Groups
  no_groups = record { groups = []; infrastructure_error = none; last_test = none }

  unfoldable pub evaluate_test_groups :
      CommandResult → Machine → Outcome (TaskRunResult N Meta) × Machine
  unfolding groups_result
  evaluate_test_groups build m =
      let (g, m1) = evaluate_groups task.test_groups no_groups m in
      let (copied, m2) = copy_results_from_container w container_name container_workdir m1 in
      elim copied [
        | none ↦ (raised "TimeoutExpired", m2)
        | some copy ↦ (returned (groups_result build g copy m2), m2)
      ]
