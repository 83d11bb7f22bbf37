-- ===== src/Runner/Evaluate.antt =====
-- benchmark/runner.py: `DockerRunner.evaluate`. Each part that follows an early return of the source
-- is a function of its own, called where the source goes on.
pub mod Settle
pub mod FullMarks
pub mod Verdict
use csharp_llm_benchmark.Prelude.{
  String, ◌<>◌, Option, none, some, List, [], ◌∷◌, ◌++◌, map, Bool, true, false, not, ◌&&◌, ◌||◌,
  ◌==◌, string_eq, mem, any, all, if◌then◌else◌,
}
use csharp_llm_benchmark.Prelude.Int.{ℤ, pos, int_eq}
use csharp_llm_benchmark.Prelude.Text.{Text}
use csharp_llm_benchmark.Source.Extract.{ExtractedCode, Warning}
use csharp_llm_benchmark.Tasks.Model.{Dict, keys, Task, TestGroup}
use csharp_llm_benchmark.Runner.Result.{LlmUsage, CommandResult, GroupResult, TaskRunResult}
use csharp_llm_benchmark.Runner.Docker.{
  DockerConfig, World, Machine, write_log, log, Reply, register_container, unregister_container,
  succeeded, is_docker_failure, remove_container, create_container, copy_workspace_to_container,
  exec_in_container, copy_results_from_container,
}
use csharp_llm_benchmark.Runner.Trx.{Strings, Results, parse_trx_results, union, minus, no_results}
use csharp_llm_benchmark.Runner.Groups.{
  Delivery, Outcome, is_missing, Setting, fingerprint, result, infrastructure_result,
  container_name, container_workdir, prepare_workspace, Groups, put_group, exit_code_of,
  could_not_run, test_could_not_run, test_group, evaluate_group, evaluate_groups, settle_group,
  settle_groups, all_tests, is_zero_exit, is_nil, groups_result, no_groups, evaluate_test_groups,
  returned, raised,
}

module _ {N Meta Snapshot : Type 0} (w : World) (s : Setting N Snapshot) (task : Task N)
    (d : Delivery N Meta Snapshot) where
  -- After the tests have run: their results.
  unfoldable pub after_tests :
      CommandResult → CommandResult → Machine → Outcome (TaskRunResult N Meta) × Machine
  unfolding infrastructure_result
  after_tests build test m =
      let (copied, m') =
        copy_results_from_container w (container_name w s task d) (container_workdir w s task d)
          m in
      let r = parse_trx_results s.strings (w.result_files m'.events "TestResults") in
      let base = result w s task d (if succeeded test then "passed" else "tests_failed") in
      let collected : TaskRunResult N Meta = record base {
        workdir = some s.workdir_name;
        build = some build;
        test = some test;
        passed_tests = s.strings.sorted r.passed;
        failed_tests = s.strings.sorted r.failed;
      } in
      if is_docker_failure test
      then (
        returned (
            infrastructure_result w s task d build
              "Docker or the evaluation image failed before tests could run." (some test)),
        m,
      )
      else if test.timed_out
      then (
        returned (infrastructure_result w s task d build "Test command timed out." (some test)),
        m,
      )
      else elim copied [
        | none ↦ (raised "TimeoutExpired", m')
        | some copy ↦
            if not (succeeded copy)
            then (
              returned (
                  infrastructure_result w s task d build
                    "Docker could not copy test results out of the container." (some test)),
              m',
            )
            else (returned collected, m')
      ]

  unfoldable pub run_tests : CommandResult → Machine → Outcome (TaskRunResult N Meta) × Machine
  unfolding after_tests
  run_tests build m =
      let (test, m') =
        exec_in_container w s.config (container_name w s task d) (container_workdir w s task d)
          task.test_command m in
      after_tests build test (log m' (write_log "test.log"))

  -- After the build has run.
  unfoldable pub after_build : CommandResult → Machine → Outcome (TaskRunResult N Meta) × Machine
  unfolding infrastructure_result
  after_build build m =
      let base = result w s task d "build_failed" in
      let failed : TaskRunResult N Meta = record base {
        workdir = some s.workdir_name;
        build = some build;
      } in
      let groups = evaluate_test_groups w s task d build m in
      let tests = run_tests build m in
      if is_docker_failure build
      then (
        returned (
            infrastructure_result w s task d build
              "Docker or the evaluation image failed before build could run." none),
        m,
      )
      else if build.timed_out
      then (returned (infrastructure_result w s task d build "Build command timed out." none), m)
      else if not (succeeded build)
      then (returned failed, m)
      else if task.suite == "evolution"
      then groups
      else tests

  unfoldable pub after_setup : CommandResult → Machine → Outcome (TaskRunResult N Meta) × Machine
  unfolding infrastructure_result
  after_setup setup m =
      let (build, m') =
        exec_in_container w s.config (container_name w s task d) (container_workdir w s task d)
          task.build_command m in
      let built = after_build build (log m' (write_log "build.log")) in
      if not (succeeded setup)
      then (
        returned (
            infrastructure_result w s task d setup
              "Docker could not copy the workspace into the container." none),
        log m (write_log "build.log"),
      )
      else built

  -- The body of the `try` statement.
  unfoldable pub in_container : CommandResult → Machine → Outcome (TaskRunResult N Meta) × Machine
  unfolding infrastructure_result
  in_container create m =
      let (setup, m') =
        copy_workspace_to_container w (container_name w s task d) (container_workdir w s task d)
          m in
      let go_on = after_setup setup m' in
      if w.cancelled m.events
      then (returned (infrastructure_result w s task d create "Evaluation was cancelled." none), m)
      else go_on

  -- The statements of the `finally` clause, which also follow a failed creation. In the source the
  -- container is registered before the `try` statement, so an exception of its creation or of the
  -- log of a failed one leaves it registered; these exceptions, a UnicodeDecodeError of docker's
  -- output and an OSError of the log, are left out.
  unfoldable pub clean_up : Machine → Machine
  clean_up m =
      unregister_container (container_name w s task d)
        (remove_container w (container_name w s task d) m)

  unfoldable pub with_container : Machine → Outcome (TaskRunResult N Meta) × Machine
  unfolding clean_up infrastructure_result
  with_container m =
      let (create, m1) =
        create_container w s.config (container_name w s task d)
          (register_container (container_name w s task d) m) in
      let (outcome, m2) = in_container create m1 in
      if not (succeeded create)
      then (
        returned (
            infrastructure_result w s task d create
              "Docker could not create the evaluation container." none),
        clean_up (log m1 (write_log "build.log")),
      )
      else (outcome, clean_up m2)

  unfoldable pub evaluate : Machine → Outcome (TaskRunResult N Meta) × Machine
  unfolding prepare_workspace
  evaluate m =
      let base = result w s task d "infrastructure_error" in
      let not_generated : TaskRunResult N Meta = record base {
        infrastructure_error = d.generation_infrastructure_error;
      } in
      let base' = result w s task d "extraction_error" in
      let not_extracted : TaskRunResult N Meta = record base' {
        extraction_error = d.extracted_code.error;
      } in
      let run = with_container m in
      if not (is_missing d.generation_infrastructure_error)
      then (returned not_generated, m)
      else if is_missing d.extracted_code.code && is_missing d.project_snapshot
      then (returned not_extracted, m)
      else elim (prepare_workspace w s task d) [
        | raised message ↦ (raised message, m)
        | returned _ ↦ run
      ]
