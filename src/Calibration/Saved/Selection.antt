-- ===== src/Calibration/Saved/Selection.antt =====
-- The number of workers that the search selects.
use csharp_llm_benchmark.Prelude.{
  bind_inv, ℕ, zero, suc, ◌+◌, ◌-◌, ◌≤◌, ◌<◌, ◌≡◌, refl, ap, some, List, [], ◌∷◌, map, arith, Bool,
  ◌==◌, nat_eq, All, Bool-cases, inl, inr,
}
use csharp_llm_benchmark.Prelude.Numbers.{Numbers}
use csharp_llm_benchmark.Prelude.Order.{
  IsOrdered, ComparisonLaws, max_from, IsFirstMax, GreaterLaws, max_first,
}
use csharp_llm_benchmark.Calibration.Config.{AppConfig}
use csharp_llm_benchmark.Calibration.Measure.{
  ConcurrencyTrial, ConcurrencyCalibrationResult, Laboratory, Event, clock_read, measure_trial,
  measure_trials, round, measure_rounds, with_workers, is_faster, best_trial, calibrate_concurrency,
}

max_from-All {κ} :
    {A : Type 0} (gt : A → A → Bool) (P : A → Type κ) (best : A) (xs : List A)
    → P best
    → All P xs
    → P (max_from gt best xs)
unfolding max_from
max_from-All gt P best [] p ps = p
max_from-All gt P best (x ∷ xs) p ps = elim (Bool-cases (gt x best)) [
  | inl e ↦ rw e (max_from-All gt P x xs ps.0 ps.1)
  | inr e ↦ rw e (max_from-All gt P best xs p ps.1)
]

-- `range(first, first + count)`
abbrev pub range : ℕ → ℕ → List ℕ
range first zero = []
range first (suc count) = first ∷ range (suc first) count

module _ {N : Type 0} (num : Numbers N) (lab : Laboratory N) where
  measure_trial-workers :
      (config : AppConfig N) (workers : ℕ) (events : List Event) (trial : ConcurrencyTrial N)
      (after : List Event)
      → measure_trial num lab config workers events ≡ some (trial, after)
      → trial.generation_workers ≡ workers
  unfolding measure_trial
  measure_trial-workers config workers events trial after h =
      let ((warmup, events1), e1, h1) =
        bind_inv
          (round num lab (with_workers num lab workers config)
            config.benchmark.calibration.warmup_tokens events)
          _ _ h in
      let ((rounds, events2), e2, h2) =
        bind_inv
          (measure_rounds num lab (with_workers num lab workers config)
            config.benchmark.calibration.sample_tokens config.benchmark.calibration.rounds events1)
          _ _ h1 in
      ground arith

  -- The trials are those of the numbers from the first one on.
  measure_trials-range :
      (config : AppConfig N) (first count : ℕ) (events : List Event)
      (trials : List (ConcurrencyTrial N)) (after : List Event)
      → measure_trials num lab config first count events ≡ some (trials, after)
      → map (λ (t : ConcurrencyTrial N). t.generation_workers) trials ≡ range first count
  unfolding measure_trials
  measure_trials-range config first zero events [] after h = refl
  measure_trials-range config first zero events (t ∷ ts) after h = absurd (ground arith)
  measure_trials-range config first (suc count) events trials after h =
      let ((trial, events1), e1, h1) = bind_inv (measure_trial num lab config first events) _ _ h in
      let ((rest, events2), e2, h2) =
        bind_inv (measure_trials num lab config (suc first) count events1) _ _ h1 in
      let same : trial ∷ rest ≡ trials = ground arith in
      rw (← same, measure_trial-workers config first events trial events1 e1)
        (ap (λ (l : List ℕ). first ∷ l)
          (measure_trials-range config (suc first) count events1 rest events2 e2))

  trials_bounds :
      (first count : ℕ) (trials : List (ConcurrencyTrial N))
      → map (λ (t : ConcurrencyTrial N). t.generation_workers) trials ≡ range first count
      → All (λ t. (first ≤ t.generation_workers) × (t.generation_workers < first + count)) trials
  trials_bounds first count [] h = tt
  trials_bounds first zero (t ∷ ts) h = absurd (cc)
  trials_bounds first (suc count) (t ∷ ts) h =
      let head : t.generation_workers ≡ first = ground arith in
      ((omega arith, omega arith), widen ts (trials_bounds (suc first) count ts (ground arith)))
    where
      widen :
          (l : List (ConcurrencyTrial N))
          → All
              (λ t. (suc first ≤ t.generation_workers) × (t.generation_workers < suc first + count))
              l
          → All (λ t. (first ≤ t.generation_workers) × (t.generation_workers < first + suc count)) l
      widen [] p = tt
      widen (x ∷ l) p = ((omega arith, omega arith), widen l p.1)

  best_trial-bounds :
      (first count : ℕ) (trials : List (ConcurrencyTrial N)) (best : ConcurrencyTrial N)
      → map (λ (t : ConcurrencyTrial N). t.generation_workers) trials ≡ range first count
      → best_trial num lab trials ≡ some best
      → (first ≤ best.generation_workers) × (best.generation_workers < first + count)
  unfolding best_trial
  best_trial-bounds first count [] best r h = absurd (cc)
  best_trial-bounds first count (t ∷ ts) best r h =
      let all = trials_bounds first count (t ∷ ts) r in
      let e : max_from (is_faster num lab) t ts ≡ best = ground arith in
      rw (← e) (max_from-All (is_faster num lab) _ t ts all.0 all.1)

  best_trial-first :
      (laws : ComparisonLaws num) (trials : List (ConcurrencyTrial N)) (best : ConcurrencyTrial N)
      → All (λ t. IsOrdered num t.tokens_per_second) trials
      → best_trial num lab trials ≡ some best
      → IsFirstMax (is_faster num lab) trials best
  unfolding best_trial
  best_trial-first laws [] best o h = absurd (cc)
  best_trial-first laws (t ∷ ts) best o h =
      let e : max_from (is_faster num lab) t ts ≡ best = ground arith in
      rw (← e) (max_first (is_faster num lab) greater t ts o.0 o.1)
    where
      greater : GreaterLaws (is_faster num lab) (λ t. IsOrdered num t.tokens_per_second)
      greater = record {
        asym = λ x y p q. laws.lt_asym y.tokens_per_second x.tokens_per_second q p;
        not_trans = λ x y z p q r h k.
            laws.not_lt_trans z.tokens_per_second y.tokens_per_second x.tokens_per_second r q p k h;
      }

  -- What a search for up to `maximum` workers found.
  pub record IsSelection (maximum : ℕ) (c : ConcurrencyCalibrationResult N) : Type 0 where
    pub maximum_kept : c.max_generation_workers ≡ maximum
    pub tried :
        map (λ (t : ConcurrencyTrial N). t.generation_workers) c.trials ≡ range 2 (maximum - 1)
    pub lower : 2 ≤ c.generation_workers
    pub upper : c.generation_workers ≤ maximum
    pub best : ConcurrencyTrial N
    pub fastest :
        IsFirstMax
          (λ (a b : ConcurrencyTrial N). num.lt b.tokens_per_second a.tokens_per_second)
          c.trials
          best
    pub workers_of_best : c.generation_workers ≡ best.generation_workers
    pub speed_of_best : c.tokens_per_second ≡ best.tokens_per_second

  -- Where numbers other than NaN compare lawfully, and no trial measured NaN, a search for a number
  -- of workers that returns a result has tried each number from two to the configured maximum, once
  -- and in order, and has selected the one of the first of the trials with the most tokens per
  -- second, which lies between two and the maximum.
  pub calibrate_concurrency-IsSelection :
      (laws : ComparisonLaws num) (config : AppConfig N) (events after : List Event)
      (c : ConcurrencyCalibrationResult N)
      → calibrate_concurrency num lab config events ≡ some (some c, after)
      → All (λ t. IsOrdered num t.tokens_per_second) c.trials
      → IsSelection config.benchmark.generation_workers c
  unfolding calibrate_concurrency
  calibrate_concurrency-IsSelection laws config events after c h ordered =
      elim (Bool-cases (config.benchmark.generation_workers == 1)) [
        | inl one ↦ absurd (cc (rw one at h))
        | inr more ↦
            let ((trials, events1), e1, h1) =
              bind_inv
                (measure_trials num lab config 2 (config.benchmark.generation_workers - 1)
                  (clock_read ∷ events))
                _ _ (rw more at h) in
            let (best, e2, h2) = bind_inv (best_trial num lab trials) _ _ h1 in
            let tried =
              measure_trials-range config 2 (config.benchmark.generation_workers - 1)
                (clock_read ∷ events) trials events1 e1 in
            let (lower, upper) =
              best_trial-bounds 2 (config.benchmark.generation_workers - 1) trials best tried e2 in
            let kept : c.max_generation_workers ≡ config.benchmark.generation_workers =
              ground arith in
            let same : trials ≡ c.trials = ground arith in
            let workers : c.generation_workers ≡ best.generation_workers = ground arith in
            record {
              maximum_kept = kept;
              tried = rw (← same) tried;
              lower = omega arith;
              upper = omega arith;
              best = best;
              fastest = rw (← same) (best_trial-first laws trials best (rw same ordered) e2);
              workers_of_best = workers;
              speed_of_best = ground arith;
            }
      ]
