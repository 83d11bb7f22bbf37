-- ===== src/Calibration/Saved/Resume.antt =====
-- What a calibration sets the timeouts to.
use csharp_llm_benchmark.Prelude.{
  bind_inv, ℕ, ◌≤◌, ◌≡◌, refl, sym, ap, ◌∙◌, Option, none, some, List, ◌∷◌, arith, true, false,
  nat_eq, string_eq, if◌then◌else◌,
}
use csharp_llm_benchmark.Prelude.Numbers.{Numbers}
use csharp_llm_benchmark.Calibration.Config.{CalibrationConfig, AppConfig}
use csharp_llm_benchmark.Calibration.Measure.{
  ConcurrencyCalibrationResult, CalibrationResult, Laboratory, Event, clock_read, round,
  measure_rounds, speeds, join, slowest, calculate_timeout, chosen, calibrate_concurrency,
  measure_speed, calibrate, apply_calibration,
}

along :
    {A B : Type 0} (f : A → Option B) {a a' : A} {b b' : B}
    → a ≡ a'
    → b ≡ b'
    → f a ≡ some b
    → f a' ≡ some b'
along f e e' h = sym (ap f e) ∙ h ∙ ap some e'

module _ {N : Type 0} (num : Numbers N) where
  module _ (lab : Laboratory N) where
    measure_speed-timeout :
        (config : AppConfig N) (concurrency : Option (ConcurrencyCalibrationResult N))
        (events after : List Event) (result : CalibrationResult N)
        → measure_speed num lab config concurrency events ≡ some (result, after)
        → calculate_timeout num lab result.tokens_per_second config.benchmark.calibration
          ≡ some result.timeout_seconds
    unfolding measure_speed
    measure_speed-timeout config concurrency events after result h =
        let settings = config.benchmark.calibration in
        let ((warmup, events1), e1, h1) =
          bind_inv (round num lab config settings.warmup_tokens (clock_read ∷ events)) _ _ h in
        let ((rounds, events2), e2, h2) =
          bind_inv
            (measure_rounds num lab config settings.sample_tokens settings.rounds
              (clock_read ∷ clock_read ∷ events1))
            _ _ h1 in
        let (speed, e3, h3) =
          bind_inv (slowest num lab (speeds num lab (join num lab rounds))) _ _ h2 in
        let (timeout, e4, h4) = bind_inv (calculate_timeout num lab speed settings) _ _ h3 in
        let same_speed : speed ≡ result.tokens_per_second = ground arith in
        let same_timeout : timeout ≡ result.timeout_seconds = ground arith in
        along (λ x. calculate_timeout num lab x settings) same_speed same_timeout e4

    calculate_timeout-bound :
        (speed : N) (settings : CalibrationConfig N) (seconds : ℕ)
        → calculate_timeout num lab speed settings ≡ some seconds
        → (settings.min_timeout_seconds ≤ seconds)
          × (num.finite speed ≡ true)
          × (num.le speed (num.of_ℕ 0) ≡ false)
    unfolding calculate_timeout
    calculate_timeout-bound speed settings seconds h = (ground arith, ground arith, ground arith)

    -- After a calibration both agents have the same timeout, which is at least the configured
    -- minimum, and the measured speed is finite and positive, whatever the server answered.
    pub apply_calibration_bounds :
        (config : AppConfig N) (events after : List Event) (result : CalibrationResult N)
        → calibrate num lab config events ≡ some (result, after)
        → let applied = apply_calibration num lab config result in
          (config.benchmark.calibration.min_timeout_seconds ≤ applied.pi_timeout_seconds)
          × (applied.opencode_timeout_seconds ≡ applied.pi_timeout_seconds)
          × (num.finite result.tokens_per_second ≡ true)
          × (num.le result.tokens_per_second (num.of_ℕ 0) ≡ false)
    unfolding calibrate apply_calibration
    apply_calibration_bounds config events after result h =
        let ((concurrency, events1), e1, h1) =
          bind_inv
            (if config.benchmark.calibration.concurrency_enabled
              then calibrate_concurrency num lab config events
              else some (none, events))
            _ _ h in
        let timeout =
          measure_speed-timeout (chosen num lab config concurrency) concurrency events1 after result
            h1 in
        let (least, finite, positive) =
          calculate_timeout-bound result.tokens_per_second
            (chosen num lab config concurrency).benchmark.calibration result.timeout_seconds
            timeout in
        (least_kept concurrency result.timeout_seconds least, refl, finite, positive)
      where
        least_kept :
            (concurrency : Option (ConcurrencyCalibrationResult N)) (seconds : ℕ)
            → (chosen num lab config concurrency).benchmark.calibration.min_timeout_seconds
              ≤ seconds
            → config.benchmark.calibration.min_timeout_seconds ≤ seconds
        least_kept none seconds h = h
        least_kept (some c) seconds h = h
