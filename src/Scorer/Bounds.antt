-- ===== src/Scorer/Bounds.antt =====
-- The points of a task lie between nothing and what the task offers.
use csharp_llm_benchmark.Prelude.{
  ◌≡◌, refl, inl, inr, String, some, List, [], ◌∷◌, arith, select, mem, Bool, true, All, Bool-cases,
  string_eq,
}
use csharp_llm_benchmark.Prelude.Numbers.{Numbers, OrderLaws, RatioLaws, sum_from, sum}
use csharp_llm_benchmark.Tasks.Model.{Dict, values, ScoreConfig, Task, available_points}
use csharp_llm_benchmark.Runner.Result.{TaskRunResult}
use csharp_llm_benchmark.Scorer.{
  TaskScore, points_of, ratio, score_task, base_score, evolution_score,
}
use csharp_llm_benchmark.Scorer.Cases.{
  score_task_cases, evolution_failed, evolution_scored, greenfield_failed, greenfield_scored,
}

module _ {N : Type 0} (num : Numbers N) (laws : OrderLaws num) where
  -- `x` is a number that is not negative.
  abbrev pub IsNonneg : N → Type 0
  IsNonneg x = num.le (num.of_ℕ 0) x ≡ true

  abbrev pub AllNonneg : Dict N → Type 0
  AllNonneg weights = All (λ (_, w). IsNonneg w) weights

  add-IsNonneg : (a w : N) → IsNonneg a → IsNonneg w → IsNonneg (num.add a w)
  add-IsNonneg a w ha hw = laws.le_trans _ a _ ha (laws.le-add a w ha hw)

  pub sum_from-IsNonneg :
      (a : N) (ws : Dict N) → IsNonneg a → AllNonneg ws → IsNonneg (sum_from num a (values ws))
  sum_from-IsNonneg a [] ha h = ha
  sum_from-IsNonneg a ((k, w) ∷ ws) ha h =
      sum_from-IsNonneg (num.add a w) ws (add-IsNonneg a w ha h.0) h.1

  -- A sum over fewer tests, from a smaller start, is smaller.
  sum_select-le :
      (p : String → Bool) (a b : N) (ws : Dict N)
      → IsNonneg a
      → num.le a b ≡ true
      → AllNonneg ws
      → num.le
          (sum_from num a (values (select (λ (name, _). p name) ws)))
          (sum_from num b (values ws))
        ≡ true
  sum_select-le p a b [] ha hab h = hab
  sum_select-le p a b ((k, w) ∷ ws) ha hab h = elim (Bool-cases (p k)) [
    | inl e ↦ rw e (
        sum_select-le p (num.add a w) (num.add b w) ws (add-IsNonneg a w ha h.0)
          (laws.add_le_add a b w ha hab h.0) h.1)
    | inr e ↦ rw e (
        sum_select-le p a (num.add b w) ws ha
          (laws.le_trans a b _ hab (laws.le-add b w (laws.le_trans _ a b ha hab) h.0)) h.1)
  ]

  -- What `validate_tasks` asks of the weights, and that their totals are finite.
  pub record IsWeighted (score : ScoreConfig N) : Type 0 where
    pub compile : IsNonneg score.compile
    pub tests : AllNonneg score.tests
    pub regression : AllNonneg score.regression
    pub finite_points : num.finite (available_points num score) ≡ true
    pub finite_regression : num.finite (sum num (values score.regression)) ≡ true

  -- `x` is between nothing and `y`.
  abbrev pub IsWithin : N → N → Type 0
  IsWithin x y = IsNonneg x × (num.le x y ≡ true)

  points_of_bounds :
      (passed : List String) (ws : Dict N)
      → AllNonneg ws
      → IsWithin (points_of num passed ws) (sum num (values ws))
  unfolding points_of
  points_of_bounds passed ws h = (
    select_nonneg ws _ laws.zero_le h,
    sum_select-le (λ name. mem name passed) _ _ ws laws.zero_le (laws.le_refl _ laws.zero_le) h,
  )
    where
      select_nonneg :
          (l : Dict N) (a : N)
          → IsNonneg a
          → AllNonneg l
          → IsNonneg (sum_from num a (values (select (λ (name, _). mem name passed) l)))
      select_nonneg [] a ha h = ha
      select_nonneg ((k, w) ∷ l) a ha h = elim (Bool-cases (mem k passed)) [
        | inl e ↦ rw e (select_nonneg l (num.add a w) (add-IsNonneg a w ha h.0) h.1)
        | inr e ↦ rw e (select_nonneg l a ha h.1)
      ]

  module _ (ratios : RatioLaws num) where
    pub ratio_bounds :
        (passed : List String) (ws : Dict N) (x : N)
        → AllNonneg ws
        → num.finite (sum num (values ws)) ≡ true
        → ratio num passed ws ≡ some x
        → IsWithin x (num.of_ℕ 1)
    unfolding ratio
    ratio_bounds passed ws x h f e =
        elim (Bool-cases (num.same (sum num (values ws)) (num.of_ℕ 0))) [
          | inl z ↦ absurd (cc z)
          | inr z ↦
              let (nonneg, le) = points_of_bounds passed ws h in
              let same : num.div (points_of num passed ws) (sum num (values ws)) ≡ x =
                ground arith in
              rw (← same) (ratios.div_bounds _ _ nonneg le f z)
        ]

    product_bounds :
        (a f r : N)
        → IsNonneg a
        → num.finite a ≡ true
        → IsWithin f (num.of_ℕ 1)
        → IsWithin r (num.of_ℕ 1)
        → IsWithin (num.mul (num.mul a f) r) a
    product_bounds a f r ha fa hf hr =
        let (nonneg, le) = ratios.mul_bounds a f ha fa hf.0 hf.1 in
        let (nonneg', le') =
          ratios.mul_bounds (num.mul a f) r nonneg (ratios.finite_of_le _ a nonneg le fa) hr.0
            hr.1 in
        (nonneg', laws.le_trans _ _ _ le' le)

    -- The parts of the weights that a score needs.
    module _ (score : ScoreConfig N) (w : IsWeighted score) where
      tests-IsWithin : IsWithin (sum num (values score.tests)) (available_points num score)
      unfolding available_points
      tests-IsWithin =
          let nonneg = sum_from-IsNonneg _ score.tests laws.zero_le w.tests in
          (
            nonneg,
            rw (laws.add_comm score.compile (sum num (values score.tests)) w.compile nonneg)
                (laws.le-add _ _ nonneg w.compile),
          )

      pub available-IsNonneg : IsNonneg (available_points num score)
      available-IsNonneg = laws.le_trans _ _ _ tests-IsWithin.0 tests-IsWithin.1

      pub finite_tests : num.finite (sum num (values score.tests)) ≡ true
      finite_tests = ratios.finite_of_le _ _ tests-IsWithin.0 tests-IsWithin.1 w.finite_points

      greenfield-IsWithin :
          (passed : List String)
          → IsWithin
              (num.add score.compile (points_of num passed score.tests))
              (available_points num score)
      unfolding available_points
      greenfield-IsWithin passed =
          let (nonneg, le) = points_of_bounds passed score.tests w.tests in
          (
            add-IsNonneg _ _ w.compile nonneg,
            rw
                (
                  laws.add_comm score.compile (points_of num passed score.tests) w.compile nonneg,
                  laws.add_comm score.compile (sum num (values score.tests)) w.compile
                      (laws.le_trans _ _ _ nonneg le),
                )
                (laws.add_le_add _ _ score.compile nonneg le w.compile),
          )

    module _ {Meta : Type 0} where
      -- For nonnegative weights with finite totals, every score of a task earns at least nothing and
      -- at most the points that the task offers, in both suites and whatever the run's status; and
      -- the points that it counts as available are those of the task, on every branch.
      pub score_task_bounds :
          (task : Task N) (result : TaskRunResult N Meta) (s : TaskScore N Meta)
          → IsWeighted task.score
          → score_task num task result ≡ some s
          → IsWithin s.earned_points (available_points num task.score)
            × (s.available_points ≡ available_points num task.score)
      score_task_bounds task result s w h = elim (score_task_cases num task result s h) [
        | evolution_failed _ _ e ↦ scored task result s w _ _ (zero_within, zero_within) e
        | evolution_scored f r _ _ ef er e ↦
            scored task result s w f r
              (
                ratio_bounds _ _ f w.tests (finite_tests task.score w) ef,
                ratio_bounds _ _ r w.regression w.finite_regression er,
              )
              e
        | greenfield_failed _ _ e ↦ rw e (
          unfold base_score in (laws.zero_le, available-IsNonneg task.score w),
          unfold base_score in refl,
        )
        | greenfield_scored _ _ e ↦
            rw e
              (unfold base_score in greenfield-IsWithin task.score w _, unfold base_score in refl)
      ]
        where
          zero_within : IsWithin (num.of_ℕ 0) (num.of_ℕ 1)
          zero_within = (laws.zero_le, ratios.zero_le_one)

          scored :
              (task : Task N) (result : TaskRunResult N Meta) (s : TaskScore N Meta)
              → IsWeighted task.score
              → (f r : N) → IsWithin f (num.of_ℕ 1) × IsWithin r (num.of_ℕ 1)
              → s ≡ evolution_score num task result f r
              → IsWithin s.earned_points (available_points num task.score)
                × (s.available_points ≡ available_points num task.score)
          scored task result s w f r (hf, hr) e = rw e (
            unfold evolution_score in
                product_bounds _ f r (available-IsNonneg task.score w) w.finite_points hf hr,
            unfold evolution_score in refl,
          )
