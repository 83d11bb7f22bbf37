-- ===== src/Calibration/Measure.antt =====
-- benchmark/calibration.py: the rounds of probes and what is computed from them. The server, the
-- clock and the functions of `math` are the parameter `Laboratory`; it answers by the events so far.
-- `none` is an exception.
use csharp_llm_benchmark.Prelude.{
  ℕ, zero, suc, ◌-◌, String, Option, none, some, List, [], ◌∷◌, ◌++◌, map, Bool, not, ◌||◌, ◌==◌,
  nat_eq, leb, ◌>>=◌, if◌then◌else◌, length,
}
use csharp_llm_benchmark.Prelude.Numbers.{Numbers}
use csharp_llm_benchmark.Prelude.Order.{max_from}
use csharp_llm_benchmark.Tasks.Model.{Dict}
use csharp_llm_benchmark.Calibration.Config.{CalibrationConfig, AppConfig}

pub record ProbeMeasurement (N : Type 0) : Type 0 where
  pub output_tokens : ℕ
  pub elapsed_seconds : N
  pub time_to_first_token_seconds : Option N
  pub tokens_per_second : N

pub record ConcurrencyTrial (N : Type 0) : Type 0 where
  pub generation_workers : ℕ
  pub warmup_samples : List (ProbeMeasurement N)
  pub rounds : List (List (ProbeMeasurement N))
  pub tokens_per_second : N

pub record ConcurrencyCalibrationResult (N : Type 0) : Type 0 where
  pub max_generation_workers : ℕ
  pub generation_workers : ℕ
  pub tokens_per_second : N
  pub calibration_seconds : N
  pub trials : List (ConcurrencyTrial N)

pub record CalibrationResult (N : Type 0) : Type 0 where
  pub measured_at : String
  pub model : String
  pub base_url : String
  pub generation_workers : ℕ
  pub settings : CalibrationConfig N
  pub sampling : Dict N
  pub warmup_seconds : N
  pub calibration_seconds : N
  pub warmup_samples : List (ProbeMeasurement N)
  pub samples : List (ProbeMeasurement N)
  pub tokens_per_second : N
  pub timeout_seconds : ℕ
  pub concurrency_calibration : Option (ConcurrencyCalibrationResult N)

pub data Event : Type 0 where
  -- A round of probes, by the number of workers and the tokens of each.
  probed : ℕ → ℕ → Event
  clock_read : Event

pub record Laboratory (N : Type 0) : Type 0 where
  -- What the worker with an index measures in the round that comes next.
  pub probe : List Event → ℕ → ℕ → Option (ProbeMeasurement N)
  pub perf_counter : List Event → N
  pub utc_now : List Event → String
  pub sub : N → N → N
  pub fsum : List N → N
  -- `math.ceil`, 0 for a negative number and `none` for infinity and NaN
  pub ceil : N → Option ℕ

abbrev pub entry : {N : Type 0} → String → Option N → Dict N
entry key none = []
entry key (some value) = (key, value) ∷ []

abbrev pub larger : ℕ → ℕ → ℕ
larger a b = if leb b a then a else b

module _ {N : Type 0} (num : Numbers N) (lab : Laboratory N) where
  abbrev pub as_number : Option ℕ → Option N
  as_number none = none
  as_number (some n) = some (num.of_ℕ n)

  unfoldable pub sampling : AppConfig N → Dict N
  sampling config =
      entry "temperature" (some config.llm.temperature)
      ++ (entry "top_p" config.llm.top_p
          ++ (entry "min_p" config.llm.min_p
              ++ (entry "top_k" (as_number config.llm.top_k)
                  ++ entry "repetition_penalty" config.llm.repetition_penalty)))

  unfoldable pub calculate_timeout : N → CalibrationConfig N → Option ℕ
  calculate_timeout speed settings =
      let seconds = num.mul settings.safety_factor (
        num.add (num.div (num.of_ℕ settings.token_budget) speed)
          (num.of_ℕ settings.overhead_seconds)) in
      if not (num.finite speed) || num.le speed (num.of_ℕ 0)
      then none
      else do timeout ← lab.ceil seconds; some (larger settings.min_timeout_seconds timeout)

  abbrev pub Measured : Type 0 → Type 0
  Measured A = Option (A × List Event)

  -- The probes of the workers from an index on; the first exception is raised.
  unfoldable pub probes : List Event → ℕ → ℕ → ℕ → Option (List (ProbeMeasurement N))
  probes events tokens index zero = some []
  probes events tokens index (suc workers) = do
    sample ← lab.probe events tokens index
    rest ← probes events tokens (suc index) workers
    some (sample ∷ rest)

  unfoldable pub round : AppConfig N → ℕ → List Event → Measured (List (ProbeMeasurement N))
  unfolding probes
  round config tokens events = do
    samples ← probes events tokens 0 config.benchmark.generation_workers
    some (samples, probed config.benchmark.generation_workers tokens ∷ events)

  -- A number of rounds, one after the other.
  unfoldable pub measure_rounds :
      AppConfig N → ℕ → ℕ → List Event → Measured (List (List (ProbeMeasurement N)))
  unfolding round
  measure_rounds config tokens zero events = some ([], events)
  measure_rounds config tokens (suc rounds) events = do
    (samples, events') ← round config tokens events
    (rest, events'') ← measure_rounds config tokens rounds events'
    some (samples ∷ rest, events'')

  abbrev pub with_workers : ℕ → AppConfig N → AppConfig N
  with_workers workers config =
      let benchmark = config.benchmark in
      record config { benchmark = record benchmark { generation_workers = workers } }

  abbrev pub speeds : List (ProbeMeasurement N) → List N
  speeds samples = map (λ (s : ProbeMeasurement N). s.tokens_per_second) samples

  -- One round of the loop of `calibrate_concurrency`.
  unfoldable pub measure_trial : AppConfig N → ℕ → List Event → Measured (ConcurrencyTrial N)
  unfolding round measure_rounds
  measure_trial config workers events =
      let candidate = with_workers workers config in
      let settings = config.benchmark.calibration in
      do
        (warmup, events') ← round candidate settings.warmup_tokens events
        (rounds, events'') ← measure_rounds candidate settings.sample_tokens settings.rounds events'
        (if length rounds == 0
            then none
            else some (
              record {
                generation_workers = workers;
                warmup_samples = warmup;
                rounds = rounds;
                tokens_per_second =
                    num.div (lab.fsum (map (λ samples. lab.fsum (speeds samples)) rounds))
                      (num.of_ℕ (length rounds));
              },
              events'',
            ))

  -- `for workers in range(workers, workers + count)`
  unfoldable pub measure_trials :
      AppConfig N → ℕ → ℕ → List Event → Measured (List (ConcurrencyTrial N))
  unfolding measure_trial
  measure_trials config workers zero events = some ([], events)
  measure_trials config workers (suc count) events = do
    (trial, events') ← measure_trial config workers events
    (rest, events'') ← measure_trials config (suc workers) count events'
    some (trial ∷ rest, events'')

  abbrev pub is_faster : ConcurrencyTrial N → ConcurrencyTrial N → Bool
  is_faster a b = num.lt b.tokens_per_second a.tokens_per_second

  -- `max(trials, key=...)`; `none` is the ValueError for no trials.
  unfoldable pub best_trial : List (ConcurrencyTrial N) → Option (ConcurrencyTrial N)
  unfolding max_from
  best_trial [] = none
  best_trial (trial ∷ trials) = some (max_from is_faster trial trials)

  -- `none` inside for no search.
  unfoldable pub calibrate_concurrency :
      AppConfig N → List Event → Measured (Option (ConcurrencyCalibrationResult N))
  unfolding measure_trials best_trial
  calibrate_concurrency config events =
      let maximum = config.benchmark.generation_workers in
      let started = lab.perf_counter events in
      let search = (do
        (trials, events') ← measure_trials config 2 (maximum - 1) (clock_read ∷ events)
        best ← best_trial trials
        some (
          some (record {
            max_generation_workers = maximum;
            generation_workers = best.generation_workers;
            tokens_per_second = best.tokens_per_second;
            calibration_seconds = lab.sub (lab.perf_counter events') started;
            trials = trials;
          }),
          clock_read ∷ events',
        )) in
      if maximum == 1 then some (none, events) else search

  abbrev pub join : List (List (ProbeMeasurement N)) → List (ProbeMeasurement N)
  join [] = []
  join (samples ∷ rounds) = samples ++ join rounds

  abbrev pub min_from : N → List N → N
  min_from best [] = best
  min_from best (x ∷ xs) = min_from (if num.lt x best then x else best) xs

  -- `min(...)`; `none` is the ValueError for no samples.
  abbrev pub slowest : List N → Option N
  slowest [] = none
  slowest (x ∷ xs) = some (min_from x xs)

  -- After the search for a number of workers.
  unfoldable pub measure_speed :
      AppConfig N
      → Option (ConcurrencyCalibrationResult N)
      → List Event
      → Measured (CalibrationResult N)
  unfolding round measure_rounds calculate_timeout sampling
  measure_speed config concurrency events =
      let settings = config.benchmark.calibration in
      let started = lab.perf_counter events in
      do
        (warmup, events1) ← round config settings.warmup_tokens (clock_read ∷ events)
        let warmup_seconds = lab.sub (lab.perf_counter events1) started
        let started' = lab.perf_counter (clock_read ∷ events1)
        (rounds, events2) ←
            measure_rounds config settings.sample_tokens settings.rounds
              (clock_read ∷ clock_read ∷ events1)
        let calibration_seconds = lab.sub (lab.perf_counter events2) started'
        speed ← slowest (speeds (join rounds))
        timeout ← calculate_timeout speed settings
        some (
          record {
            measured_at = lab.utc_now (clock_read ∷ events2);
            model = config.llm.model;
            base_url = config.llm.base_url;
            generation_workers = config.benchmark.generation_workers;
            settings = settings;
            sampling = sampling config;
            warmup_seconds = warmup_seconds;
            calibration_seconds = calibration_seconds;
            warmup_samples = warmup;
            samples = join rounds;
            tokens_per_second = speed;
            timeout_seconds = timeout;
            concurrency_calibration = concurrency;
          },
          clock_read ∷ events2,
        )

  abbrev pub chosen : AppConfig N → Option (ConcurrencyCalibrationResult N) → AppConfig N
  chosen config none = config
  chosen config (some concurrency) = with_workers concurrency.generation_workers config

  unfoldable pub calibrate : AppConfig N → List Event → Measured (CalibrationResult N)
  unfolding calibrate_concurrency measure_speed
  calibrate config events = do
    (concurrency, events') ←
        (if config.benchmark.calibration.concurrency_enabled
          then calibrate_concurrency config events
          else some (none, events))
    measure_speed (chosen config concurrency) concurrency events'

  unfoldable pub apply_calibration : AppConfig N → CalibrationResult N → AppConfig N
  apply_calibration config result =
      let config' = with_workers result.generation_workers config in
      record config' {
        pi_timeout_seconds = result.timeout_seconds;
        opencode_timeout_seconds = result.timeout_seconds;
      }
