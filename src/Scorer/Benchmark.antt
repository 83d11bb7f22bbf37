-- ===== src/Scorer/Benchmark.antt =====
-- The totals of `score_benchmark` over the scores of a list of runs.
use csharp_llm_benchmark.Prelude.{◌≡◌, some, List, [], ◌∷◌, map, true, All, Bool-cases, inl, inr}
use csharp_llm_benchmark.Prelude.Numbers.{Numbers, OrderLaws, RatioLaws, sum_from, sum}
use csharp_llm_benchmark.Tasks.Model.{Task}
use csharp_llm_benchmark.Runner.Result.{TaskRunResult}
use csharp_llm_benchmark.Scorer.{TaskScore, score_task, score_benchmark}
use csharp_llm_benchmark.Scorer.Bounds.{IsWithin, IsWeighted, score_task_bounds}

module _ {N Meta : Type 0} (num : Numbers N) where
  -- The scores are those of the runs, in order.
  abbrev pub ScoresOf : List (Task N × TaskRunResult N Meta) → List (TaskScore N Meta) → Type 0
  ScoresOf [] [] = Unit
  ScoresOf ((task, result) ∷ runs) (s ∷ scores) =
      (score_task num task result ≡ some s) × ScoresOf runs scores
  ScoresOf _ _ = ⊥

  module _ (laws : OrderLaws num) (ratios : RatioLaws num) where
    -- A list of scores, each within its available points.
    abbrev AllWithin : List (TaskScore N Meta) → Type 0
    AllWithin scores = All (λ s. IsWithin num laws s.earned_points s.available_points) scores

    abbrev pub AllWeighted : List (Task N × TaskRunResult N Meta) → Type 0
    AllWeighted runs = All (λ (task, _). IsWeighted num laws task.score) runs

    scores-AllWithin :
        (runs : List (Task N × TaskRunResult N Meta)) (scores : List (TaskScore N Meta))
        → AllWeighted runs
        → ScoresOf runs scores
        → AllWithin scores
    scores-AllWithin [] [] w h = tt
    scores-AllWithin [] (s ∷ scores) w h = absurd h
    scores-AllWithin ((task, result) ∷ runs) [] w h = absurd h
    scores-AllWithin ((task, result) ∷ runs) (s ∷ scores) w h =
        let (within, same) = score_task_bounds num laws ratios task result s w.0 h.0 in
        (rw same within, scores-AllWithin runs scores w.1 h.1)

    sums-IsWithin :
        (a b : N) (scores : List (TaskScore N Meta))
        → IsWithin num laws a b
        → AllWithin scores
        → IsWithin num laws
            (sum_from num a (map (λ (s : TaskScore N Meta). s.earned_points) scores))
            (sum_from num b (map (λ (s : TaskScore N Meta). s.available_points) scores))
    sums-IsWithin a b [] hab h = hab
    sums-IsWithin a b (s ∷ scores) (ha, hab) ((he, hea), h) =
        let hb = laws.le_trans _ a b ha hab in
        let hv = laws.le_trans _ _ _ he hea in
        let left = laws.add_le_add a b s.earned_points ha hab he in
        let right : num.le (num.add b s.earned_points) (num.add b s.available_points) ≡ true =
          rw (laws.add_comm b s.earned_points hb he, laws.add_comm b s.available_points hb hv)
            (laws.add_le_add _ _ b he hea hb) in
        sums-IsWithin (num.add a s.earned_points) (num.add b s.available_points) scores
          (
            laws.le_trans _ _ _ ha (laws.le-add a s.earned_points ha he),
            laws.le_trans _ _ _ left right,
          )
          h

    -- The final score of a benchmark lies between 0 and 100, for runs of tasks with nonnegative
    -- weights and a finite total.
    pub final_score_bounds :
        (runs : List (Task N × TaskRunResult N Meta)) (scores : List (TaskScore N Meta))
        → AllWeighted runs
        → ScoresOf runs scores
        → num.finite (score_benchmark num scores).available_points ≡ true
        → IsWithin num laws (score_benchmark num scores).final_score (num.of_ℕ 100)
    unfolding score_benchmark
    final_score_bounds runs scores w h finite =
        let (nonneg, le) =
          sums-IsWithin _ _ scores (laws.zero_le, laws.le_refl _ laws.zero_le)
            (scores-AllWithin runs scores w h) in
        elim (Bool-cases (
          num.same (sum num (map (λ (s : TaskScore N Meta). s.available_points) scores))
            (num.of_ℕ 0))) [
              | inl z ↦ rw z (laws.zero_le, zero_le_hundred)
              | inr z ↦
                  let (q, q') = ratios.div_bounds _ _ nonneg le finite z in
                  let (p, p') = ratios.percent_bounds _ q q' in rw z (ratios.round_bounds _ p p')
            ]
      where
        zero_le_hundred : num.le (num.of_ℕ 0) (num.of_ℕ 100) ≡ true
        zero_le_hundred =
            let (p, p') = ratios.percent_bounds _ laws.zero_le ratios.zero_le_one in
            laws.le_trans _ _ _ p p'
