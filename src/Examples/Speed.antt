-- ===== src/Examples/Speed.antt =====
-- The theorems on benchmark/calibration.py at a search for up to three workers.
use csharp_llm_benchmark.Prelude.{
  ℕ, ◌-◌, ◌≤◌, ◌≡◌, refl, none, some, List, [], ◌∷◌, true, false, length,
}
use csharp_llm_benchmark.Prelude.Numbers.{nat_numbers, sum}
use csharp_llm_benchmark.Calibration.Config.{AppConfig}
use csharp_llm_benchmark.Calibration.Measure.{
  ProbeMeasurement, ConcurrencyCalibrationResult, CalibrationResult, Laboratory, Event, probed,
  clock_read, sampling, calculate_timeout, probes, round, measure_rounds, measure_trial,
  measure_trials, best_trial, calibrate_concurrency, measure_speed, calibrate, apply_calibration,
}
use csharp_llm_benchmark.Prelude.Order.{nat_comparison_laws}
use csharp_llm_benchmark.Calibration.Saved.Selection.{
  IsSelection, calibrate_concurrency-IsSelection,
}
use csharp_llm_benchmark.Calibration.Saved.Resume.{apply_calibration_bounds}

abbrev sample : ProbeMeasurement ℕ
sample = record {
  output_tokens = 8;
  elapsed_seconds = 2;
  time_to_first_token_seconds = none;
  tokens_per_second = 5;
}

abbrev steady_server : Laboratory ℕ
steady_server = record {
  probe = λ events tokens index. some sample;
  perf_counter = λ events. length events;
  utc_now = λ events. "2026-01-01";
  sub = λ a b. a - b;
  fsum = sum nat_numbers;
  ceil = λ a. some a;
}

abbrev config : AppConfig ℕ
config = record {
  llm = record {
    base_url = "http://localhost:1234/v1";
    api_key = "key";
    model = "model";
    model_label = none;
    publisher = none;
    quantization = "unknown";
    kv_cache_quantization = none;
    temperature = 1;
    temperatures = 1 ∷ [];
    top_p = some 1;
    min_p = none;
    top_k = some 40;
    repetition_penalty = none;
    requests_per_minute = none;
    context_limit = none;
    discovery = record { enabled = true; temperatures = none };
  };
  benchmark = record {
    difficulty = none;
    output_dir = "results";
    max_attempts_per_task = 1;
    task_id = none;
    generation_workers = 3;
    evaluation_workers = 1;
    generator = "opencode";
    calibration = record {
      enabled = true;
      concurrency_enabled = true;
      warmup_tokens = 8;
      sample_tokens = 16;
      rounds = 1;
      token_budget = 100;
      safety_factor = 2;
      overhead_seconds = 10;
      min_timeout_seconds = 30;
      request_timeout_seconds = 600;
    };
    suite = "greenfield";
  };
  pi_timeout_seconds = 900;
  opencode_timeout_seconds = 900;
}

abbrev pair : List (ProbeMeasurement ℕ)
pair = sample ∷ sample ∷ []

abbrev triple : List (ProbeMeasurement ℕ)
triple = sample ∷ sample ∷ sample ∷ []

abbrev found : ConcurrencyCalibrationResult ℕ
found = record {
  max_generation_workers = 3;
  generation_workers = 3;
  tokens_per_second = 15;
  calibration_seconds = 5;
  trials =
      record {
        generation_workers = 2;
        warmup_samples = pair;
        rounds = pair ∷ [];
        tokens_per_second = 10;
      }
      ∷ record {
        generation_workers = 3;
        warmup_samples = triple;
        rounds = triple ∷ [];
        tokens_per_second = 15;
      }
      ∷ [];
}

abbrev search_events : List Event
search_events = clock_read ∷ probed 3 16 ∷ probed 3 8 ∷ probed 2 16 ∷ probed 2 8 ∷ clock_read ∷ []

abbrev measured : CalibrationResult ℕ
measured = record {
  measured_at = "2026-01-01";
  model = "model";
  base_url = "http://localhost:1234/v1";
  generation_workers = 3;
  settings = config.benchmark.calibration;
  sampling = ("temperature", 1) ∷ ("top_p", 1) ∷ ("top_k", 40) ∷ [];
  warmup_seconds = 2;
  calibration_seconds = 2;
  warmup_samples = triple;
  samples = triple;
  tokens_per_second = 5;
  timeout_seconds = 60;
  concurrency_calibration = some found;
}

abbrev all_events : List Event
all_events =
    clock_read ∷ probed 3 16 ∷ clock_read ∷ clock_read ∷ probed 3 8 ∷ clock_read ∷ search_events

finds : calibrate_concurrency nat_numbers steady_server config [] ≡ some (some found, search_events)
unfolding calibrate_concurrency measure_trials measure_trial round measure_rounds probes best_trial
finds = refl

measures : calibrate nat_numbers steady_server config [] ≡ some (measured, all_events)
unfolding calibrate calibrate_concurrency measure_trials measure_trial round measure_rounds probes
    best_trial measure_speed calculate_timeout sampling
measures = refl

calibrate_concurrency-IsSelection_example : IsSelection nat_numbers steady_server 3 found
calibrate_concurrency-IsSelection_example =
    calibrate_concurrency-IsSelection nat_numbers steady_server nat_comparison_laws config []
      search_events found finds (refl, (refl, tt))

apply_calibration_bounds_example :
    let applied = apply_calibration nat_numbers steady_server config measured in
    (30 ≤ applied.pi_timeout_seconds)
    × (applied.opencode_timeout_seconds ≡ applied.pi_timeout_seconds)
    × (nat_numbers.finite 5 ≡ true)
    × (nat_numbers.le 5 0 ≡ false)
apply_calibration_bounds_example =
    apply_calibration_bounds nat_numbers steady_server config [] all_events measured measures
