-- ===== src/Scorer/Totals.antt =====
-- When scoring a task succeeds, what a perfect run earns, and the totals of a benchmark.
use mathlib.Core.Bool.{false≢true}
use csharp_llm_benchmark.Prelude.{
  ◌≡◌, ◌≢◌, refl, sym, ap, ◌∙◌, ◌↔◌, not, ◌&&◌, ◌||◌, inl, inr, String, none, some, List, [], ◌∷◌,
  arith, select, mem, Bool, true, false, All, Bool-cases, ◌==◌, string_eq,
}
use csharp_llm_benchmark.Prelude.Numbers.{Numbers, OrderLaws, RatioLaws, sum}
use csharp_llm_benchmark.Tasks.Model.{Dict, values, keys, Task, available_points}
use csharp_llm_benchmark.Runner.Result.{TaskRunResult}
use csharp_llm_benchmark.Scorer.{
  TaskScore, failed_states, points_of, ratio, score_task, base_score, evolution_score,
}
use csharp_llm_benchmark.Scorer.Cases.{
  passed_in, score_task_cases, evolution_failed, evolution_scored, greenfield_failed,
  greenfield_scored,
}
use csharp_llm_benchmark.Scorer.Bounds.{
  IsNonneg, IsWeighted, available-IsNonneg, finite_tests, sum_from-IsNonneg,
}

module _ {N Meta : Type 0} (num : Numbers N) (task : Task N) (result : TaskRunResult N Meta) where
  -- The total by which a ratio divides is zero.
  abbrev pub is_zero_total : Dict N → Bool
  is_zero_total weights = num.same (sum num (values weights)) (num.of_ℕ 0)

  -- The status is none of those that earn nothing.
  abbrev pub is_evaluated : Bool
  is_evaluated = not (mem result.status failed_states)

  -- Scoring a task raises exactly for an evolution task that was evaluated and whose weights of
  -- features, or of regressions, add up to zero.
  pub score_task_fails_iff : (score_task num task result ≡ none) ↔ (
      (((task.suite == "evolution") && is_evaluated)
        && (is_zero_total task.score.tests || is_zero_total task.score.regression))
      ≡ true)
  unfolding score_task ratio
  score_task_fails_iff = (λ h. ground arith, λ h. ground arith)

select-All :
    {N : Type 0} (passed : List String) (ws : Dict N)
    → All (λ k. mem k passed ≡ true) (keys ws)
    → select (λ (name, _). mem name passed) ws ≡ ws
select-All passed [] h = refl
select-All passed ((k, w) ∷ ws) h = rw h.0 (ap (λ l. (k, w) ∷ l) (select-All passed ws h.1))

module _ {N : Type 0} (num : Numbers N) (laws : OrderLaws num) (ratios : RatioLaws num) where
  ratio_full :
      (passed : List String) (ws : Dict N) (x : N)
      → All (λ (_, v). IsNonneg num laws v) ws
      → num.finite (sum num (values ws)) ≡ true
      → All (λ k. mem k passed ≡ true) (keys ws)
      → ratio num passed ws ≡ some x
      → x ≡ num.of_ℕ 1
  unfolding ratio points_of
  ratio_full passed ws x nonneg finite all e =
      elim (Bool-cases (num.same (sum num (values ws)) (num.of_ℕ 0))) [
        | inl z ↦ absurd (ground arith)
        | inr z ↦ ground (
          arith,
          ratios.div_self (sum num (values ws))
              (sum_from-IsNonneg num laws _ ws laws.zero_le nonneg) finite z,
          select-All passed ws all,
        )
      ]

  -- A run that was evaluated and passed every test, in each group for an evolution task, earns
  -- exactly the points that the task offers.
  pub score_task_full :
      {Meta : Type 0} (task : Task N) (result : TaskRunResult N Meta) (s : TaskScore N Meta)
      → IsWeighted num laws task.score
      → mem result.status failed_states ≡ false
      → (task.suite ≢ "evolution"
          → All (λ k. mem k result.passed_tests ≡ true) (keys task.score.tests))
      → (task.suite ≡ "evolution"
          → All (λ k. mem k (passed_in num task result "feature") ≡ true) (keys task.score.tests)
            × All
                (λ k. mem k (passed_in num task result "regression") ≡ true)
                (keys task.score.regression))
      → score_task num task result ≡ some s
      → s.earned_points ≡ available_points num task.score
  score_task_full task result s w status greenfield evolution h =
      elim (score_task_cases num task result s h) [
        | evolution_failed _ failed _ ↦ absurd (cc)
        | evolution_scored f r suite _ ef er e ↦
            let (all, all') = evolution ((string_eq.beq_iff task.suite "evolution").0 suite) in
            rw
              (
                e,
                ratio_full _ _ f w.tests (finite_tests num laws ratios task.score w) all ef,
                ratio_full _ _ r w.regression w.finite_regression all' er,
              )
              (unfold evolution_score in
                (ratios.mul_one _ (rw (ratios.mul_one _ nonneg) nonneg) ∙ ratios.mul_one _ nonneg))
        | greenfield_failed _ failed _ ↦ absurd (cc)
        | greenfield_scored suite _ e ↦ rw e (
            unfold base_score points_of available_points in
            rw (
              select-All result.passed_tests task.score.tests (
                greenfield
                  (λ p. false≢true (sym suite ∙ (string_eq.beq_iff task.suite "evolution").1 p)))))
      ]
    where
      nonneg : IsNonneg num laws (available_points num task.score)
      nonneg = available-IsNonneg num laws ratios task.score w
