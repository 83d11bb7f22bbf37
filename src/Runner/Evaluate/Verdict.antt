-- ===== src/Runner/Evaluate/Verdict.antt =====
-- What the status of an evaluation says about the commands that ran.
use csharp_llm_benchmark.Prelude.{
  ◌≡◌, ◌⊎◌, String, refl, inl, inr, Option, none, some, true, false, not, ◌&&◌, ◌==◌, string_eq,
  mem, Bool-cases,
}
use csharp_llm_benchmark.Tasks.Model.{Task}
use csharp_llm_benchmark.Runner.Result.{CommandResult, TaskRunResult}
use csharp_llm_benchmark.Runner.Docker.{
  World, Machine, Event, log, succeeded, is_docker_failure, exec_in_container,
  copy_results_from_container, create_container, register_container, copy_workspace_to_container,
}
use csharp_llm_benchmark.Runner.Evaluate.{
  after_tests, run_tests, after_build, after_setup, in_container, with_container, evaluate,
}
use csharp_llm_benchmark.Runner.Groups.{
  Delivery, Outcome, returned, raised, Setting, is_missing, evaluate_test_groups, groups_result,
  container_name, container_workdir, evaluate_groups, no_groups, infrastructure_result,
  prepare_workspace,
}
use csharp_llm_benchmark.Scorer.{failed_states}

Outcome-cases : (o : Outcome Unit) → (o ≡ returned tt) ⊎ ((message : String) × (o ≡ raised message))
Outcome-cases (returned tt) = inl refl
Outcome-cases (raised message) = inr (message, refl)

module _ {N Meta Snapshot : Type 0} (w : World) (s : Setting N Snapshot) (task : Task N)
    (d : Delivery N Meta Snapshot) where
  -- The status is one that earns nothing, or else the build ran and succeeded.
  pub data IsJustified (r : TaskRunResult N Meta) : Type 0 where
    earns_nothing : mem r.status failed_states ≡ true → IsJustified r
    built :
        (build : CommandResult)
        → r.build ≡ some build
        → succeeded build ≡ true
        → build.timed_out ≡ false
        → IsJustified r

  -- Every result of an outcome satisfies a predicate.
  abbrev pub OnReturn : (TaskRunResult N Meta → Type 0) → Outcome (TaskRunResult N Meta) → Type 0
  OnReturn P (returned r) = P r
  OnReturn P (raised message) = Unit

  abbrev Justified : Outcome (TaskRunResult N Meta) × Machine → Type 0
  Justified (outcome, _) = OnReturn IsJustified outcome

  module _ (build : CommandResult) (ok : succeeded build ≡ true)
      (quick : build.timed_out ≡ false) where
    -- After the results of the tests are copied, or could not be.
    copied-Justified :
        (test : CommandResult) (m : Machine) (copied : Option CommandResult)
        → copied
          ≡ (copy_results_from_container w
              (container_name w s task d)
              (container_workdir w s task d)
              m).0
        → is_docker_failure test ≡ false
        → test.timed_out ≡ false
        → Justified (after_tests w s task d build test m)
    unfolding after_tests infrastructure_result
    copied-Justified test m none e runs quick = simp (runs, quick, ← e) tt
    copied-Justified test m (some copy) e runs quick' = elim (Bool-cases (succeeded copy)) [
      | inl c ↦ simp (runs, quick', ← e, c) (built build refl ok quick)
      | inr c ↦ simp (runs, quick', ← e, c) (earns_nothing refl)
    ]

    after_tests-Justified :
        (test : CommandResult) (m : Machine) → Justified (after_tests w s task d build test m)
    after_tests-Justified test m = elim (Bool-cases (is_docker_failure test)) [
      | inl e ↦ unfold after_tests infrastructure_result in simp e (earns_nothing refl)
      | inr e ↦ elim (Bool-cases test.timed_out) [
        | inl e' ↦ unfold after_tests infrastructure_result in simp (e, e') (earns_nothing refl)
        | inr e' ↦ copied-Justified test m _ refl e e'
      ]
    ]

    run_tests-Justified : (m : Machine) → Justified (run_tests w s task d build m)
    unfolding run_tests
    run_tests-Justified m =
        let (test, m') =
          exec_in_container w s.config (container_name w s task d) (container_workdir w s task d)
            task.test_command m in
        after_tests-Justified test (log m' (Event.write_log "test.log"))

    groups_copied-Justified :
        (m : Machine) (copied : Option CommandResult)
        → copied
          ≡ (copy_results_from_container w
              (container_name w s task d)
              (container_workdir w s task d)
              (evaluate_groups w s task d task.test_groups (no_groups w s task d) m).1).0
        → Justified (evaluate_test_groups w s task d build m)
    unfolding evaluate_test_groups groups_result
    groups_copied-Justified m none e = rw (← e, evaluate_test_groups) tt
    groups_copied-Justified m (some copy) e =
        rw (← e, evaluate_test_groups) (built build refl ok quick)

  after_build-Justified :
      (build : CommandResult) (m : Machine) → Justified (after_build w s task d build m)
  unfolding after_build infrastructure_result
  after_build-Justified build m = elim (Bool-cases (is_docker_failure build)) [
    | inl e ↦ rw e (earns_nothing refl)
    | inr e ↦ elim (Bool-cases build.timed_out) [
      | inl e' ↦ simp (e, e') (earns_nothing refl)
      | inr e' ↦ elim (Bool-cases (succeeded build)) [
        | inr fails ↦ simp (e, e', fails) (earns_nothing refl)
        | inl ok ↦ elim (Bool-cases (task.suite == "evolution")) [
          | inl suite ↦ simp (e, e', ok, suite) (groups_copied-Justified build ok e' m _ refl)
          | inr suite ↦ simp (e, e', ok, suite) (run_tests-Justified build ok e' m)
        ]
      ]
    ]
  ]

  with_container-Justified : (m : Machine) → Justified (with_container w s task d m)
  unfolding with_container in_container after_setup infrastructure_result
  with_container-Justified m =
      let name = container_name w s task d in
      let (create, m1) = create_container w s.config name (register_container name m) in
      let (setup, m2) = copy_workspace_to_container w name (container_workdir w s task d) m1 in
      elim (Bool-cases (succeeded create)) [
        | inr e ↦ rw e (earns_nothing refl)
        | inl e ↦ elim (Bool-cases (w.cancelled m1.events)) [
          | inl e' ↦ simp (e, e') (earns_nothing refl)
          | inr e' ↦ elim (Bool-cases (succeeded setup)) [
            | inr e'' ↦ simp (e, e', e'') (earns_nothing refl)
            | inl e'' ↦ simp (e, e', e'') (after_build-Justified _ _)
          ]
        ]
      ]

  -- Every result that an evaluation returns either has a status that earns nothing, or comes from a
  -- build that ran to its end in time with exit code 0: no points are earned without a build.
  pub evaluate-IsJustified : (m : Machine) → OnReturn IsJustified (evaluate w s task d m).0
  unfolding evaluate
  evaluate-IsJustified m = elim (Bool-cases (not (is_missing d.generation_infrastructure_error))) [
    | inl e ↦ rw e (earns_nothing refl)
    | inr e ↦
        elim (Bool-cases (is_missing d.extracted_code.code && is_missing d.project_snapshot)) [
          | inl e' ↦ rw (e, e') (earns_nothing refl)
          | inr e' ↦ elim (Outcome-cases (prepare_workspace w s task d)) [
            | inl p ↦ rw (e, e', p, evaluate) (with_container-Justified m)
            | inr (message, p) ↦ rw (e, e', p, evaluate) tt
          ]
        ]
  ]
