-- ===== src/Calibration/Saved.antt =====
-- benchmark/calibration.py: `load_calibration`, on a file that is missing or holds the fields of a
-- result. A dictionary is equal to another if each has the entries of the other.
pub mod Selection
pub mod Resume
use csharp_llm_benchmark.Prelude.{
  ℕ, String, Option, none, some, List, [], ◌∷◌, Bool, true, false, not, ◌&&◌, ◌||◌, ◌==◌, nat_eq,
  string_eq, leb, any, all, length, if◌then◌else◌,
}
use csharp_llm_benchmark.Prelude.Numbers.{Numbers}
use csharp_llm_benchmark.Tasks.Model.{Dict}
use csharp_llm_benchmark.Calibration.Config.{CalibrationConfig, AppConfig}
use csharp_llm_benchmark.Calibration.Measure.{
  ConcurrencyTrial, ConcurrencyCalibrationResult, CalibrationResult, Laboratory, sampling,
  calculate_timeout, best_trial,
}

pub data Refusal : Type 0 where
  no_calibration workers_differ settings_differ model_differs base_url_differs : Refusal
  sampling_differs selection_inconsistent timeout_inconsistent : Refusal

pub data Loaded (N : Type 0) : Type 0 where
  loaded : CalibrationResult N → Loaded N
  refused : Refusal → Loaded N

abbrev pub same_bool : Bool → Bool → Bool
same_bool true b = b
same_bool false b = not b

module _ {N : Type 0} (num : Numbers N) where
  -- All settings but `concurrency_enabled`.
  abbrev pub same_settings : CalibrationConfig N → CalibrationConfig N → Bool
  same_settings a b =
      same_bool a.enabled b.enabled
      && (a.warmup_tokens == b.warmup_tokens
          && (a.sample_tokens == b.sample_tokens
              && (a.rounds == b.rounds
                  && (a.token_budget == b.token_budget
                      && (num.same a.safety_factor b.safety_factor
                          && (a.overhead_seconds == b.overhead_seconds
                              && (a.min_timeout_seconds == b.min_timeout_seconds
                                  && a.request_timeout_seconds == b.request_timeout_seconds)))))))

  abbrev pub has_entry : Dict N → String × N → Bool
  has_entry d (key, value) = any (λ (k, v). key == k && num.same value v) d

  abbrev pub same_dict : Dict N → Dict N → Bool
  same_dict a b = length a == length b && all (has_entry b) a

  -- `concurrency["max_generation_workers"] if concurrency else payload.get("generation_workers")`
  abbrev pub configured_workers : Option (ConcurrencyCalibrationResult N) → ℕ → ℕ
  configured_workers none workers = workers
  configured_workers (some concurrency) workers = concurrency.max_generation_workers

  abbrev pub is_choice : Option (ConcurrencyTrial N) → ℕ → Bool
  is_choice none workers = false
  is_choice (some trial) workers = trial.generation_workers == workers

  -- The checks on the result of a search, if there is one.
  unfoldable pub is_consistent : Option (ConcurrencyCalibrationResult N) → ℕ → Laboratory N → Bool
  unfolding best_trial
  is_consistent none workers lab = true
  is_consistent (some concurrency) workers lab =
      concurrency.generation_workers == workers
      && (leb 2 workers
          && (leb workers concurrency.max_generation_workers
              && is_choice (best_trial num lab concurrency.trials) workers))

  abbrev pub is_timeout : Option ℕ → ℕ → Bool
  is_timeout none seconds = false
  is_timeout (some timeout) seconds = seconds == timeout

  -- On the decoded file: its JSON, and the trials and samples that are rebuilt from it, are left out.
  unfoldable pub load_calibration :
      Laboratory N → AppConfig N → Option (CalibrationResult N) → Loaded N
  unfolding sampling calculate_timeout is_consistent
  load_calibration lab config none = refused no_calibration
  load_calibration lab config (some result) =
      let workers = configured_workers result.concurrency_calibration result.generation_workers in
      let settings = config.benchmark.calibration in
      if not (workers == config.benchmark.generation_workers)
      then refused workers_differ
      else if not (same_settings result.settings settings)
      then refused settings_differ
      else if not (result.model == config.llm.model)
      then refused model_differs
      else if not (result.base_url == config.llm.base_url)
      then refused base_url_differs
      else if not (same_dict result.sampling (sampling num lab config))
      then refused sampling_differs
      else if not (is_consistent result.concurrency_calibration result.generation_workers lab)
      then refused selection_inconsistent
      else if not (
          is_timeout (calculate_timeout num lab result.tokens_per_second settings)
            result.timeout_seconds)
      then refused timeout_inconsistent
      else loaded result
