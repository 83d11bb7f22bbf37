-- ===== src/Scorer/Cases.antt =====
-- The branches of `score_task`, for the proofs about it.
use csharp_llm_benchmark.Prelude.{
  ◌≡◌, inl, inr, String, some, List, true, false, arith, mem, Bool-cases, Option-cases, ◌==◌,
  string_eq, ◌>>=◌,
}
use csharp_llm_benchmark.Prelude.Numbers.{Numbers}
use csharp_llm_benchmark.Tasks.Model.{Task}
use csharp_llm_benchmark.Runner.Result.{TaskRunResult}
use csharp_llm_benchmark.Scorer.{
  TaskScore, failed_states, group_passed, points_of, ratio, base_score, evolution_score, score_task,
}

module _ {N Meta : Type 0} (num : Numbers N) (task : Task N) (result : TaskRunResult N Meta) where
  -- The tests of a group that passed.
  abbrev pub passed_in : String → List String
  passed_in = group_passed result.test_group_results

  pub data Branch (s : TaskScore N Meta) : Type 0 where
    evolution_failed :
        (task.suite == "evolution") ≡ true
        → mem result.status failed_states ≡ true
        → s ≡ evolution_score num task result (num.of_ℕ 0) (num.of_ℕ 0)
        → Branch s
    evolution_scored :
        (f r : N)
        → (task.suite == "evolution") ≡ true
        → mem result.status failed_states ≡ false
        → ratio num (passed_in "feature") task.score.tests ≡ some f
        → ratio num (passed_in "regression") task.score.regression ≡ some r
        → s ≡ evolution_score num task result f r
        → Branch s
    greenfield_failed :
        (task.suite == "evolution") ≡ false
        → mem result.status failed_states ≡ true
        → s ≡ base_score num task result (num.of_ℕ 0) (num.of_ℕ 0) (num.of_ℕ 0)
        → Branch s
    greenfield_scored :
        (task.suite == "evolution") ≡ false
        → mem result.status failed_states ≡ false
        → s
          ≡ base_score num task result
              (num.add task.score.compile (points_of num result.passed_tests task.score.tests))
              task.score.compile
              (points_of num result.passed_tests task.score.tests)
        → Branch s

  evolution_cases :
      (s : TaskScore N Meta)
      → (task.suite == "evolution") ≡ true
      → mem result.status failed_states ≡ false
      → (do
        feature ← ratio num (passed_in "feature") task.score.tests
        regression ← ratio num (passed_in "regression") task.score.regression
        some (evolution_score num task result feature regression))
        ≡ some s
      → Branch s
  evolution_cases s suite status h =
      elim (Option-cases (ratio num (passed_in "feature") task.score.tests)) [
        | inl e ↦ absurd (cc (rw (e, ◌>>=◌) at h))
        | inr (f, e) ↦
            elim (Option-cases (ratio num (passed_in "regression") task.score.regression)) [
              | inl e' ↦ absurd (cc (rw (e, ◌>>=◌, e') at h))
              | inr (r, e') ↦ evolution_scored f r suite status e e' (ground arith)
            ]
      ]

  pub score_task_cases : (s : TaskScore N Meta) → score_task num task result ≡ some s → Branch s
  unfolding score_task
  score_task_cases s h = elim (Bool-cases (task.suite == "evolution")) [
    | inl suite ↦ elim (Bool-cases (mem result.status failed_states)) [
      | inl status ↦ evolution_failed suite status (ground arith)
      | inr status ↦ evolution_cases s suite status (ground arith)
    ]
    | inr suite ↦ elim (Bool-cases (mem result.status failed_states)) [
      | inl status ↦ greenfield_failed suite status (ground arith)
      | inr status ↦ greenfield_scored suite status (ground arith)
    ]
  ]
