-- ===== src/Calibration/Config.antt =====
-- benchmark/config.py: the settings that a calibration reads and changes. A path is a text; a
-- setting of the agents that it neither reads nor changes is left out.
use csharp_llm_benchmark.Prelude.{ℕ, String, Option, List, Bool}

pub record DiscoveryConfig (N : Type 0) : Type 0 where
  pub enabled : Bool
  pub temperatures : Option (List N)

pub record LlmConfig (N : Type 0) : Type 0 where
  pub base_url : String
  pub api_key : String
  pub model : String
  pub model_label : Option String
  pub publisher : Option String
  pub quantization : String
  pub kv_cache_quantization : Option String
  pub temperature : N
  pub temperatures : List N
  pub top_p : Option N
  pub min_p : Option N
  pub top_k : Option ℕ
  pub repetition_penalty : Option N
  pub requests_per_minute : Option ℕ
  pub context_limit : Option ℕ
  pub discovery : DiscoveryConfig N

pub record CalibrationConfig (N : Type 0) : Type 0 where
  pub enabled : Bool
  pub concurrency_enabled : Bool
  pub warmup_tokens : ℕ
  pub sample_tokens : ℕ
  pub rounds : ℕ
  pub token_budget : ℕ
  pub safety_factor : N
  pub overhead_seconds : ℕ
  pub min_timeout_seconds : ℕ
  pub request_timeout_seconds : ℕ

pub record BenchmarkConfig (N : Type 0) : Type 0 where
  pub difficulty : Option String
  pub output_dir : String
  pub max_attempts_per_task : ℕ
  pub task_id : Option String
  pub generation_workers : ℕ
  pub evaluation_workers : ℕ
  pub generator : String
  pub calibration : CalibrationConfig N
  pub suite : String

pub record AppConfig (N : Type 0) : Type 0 where
  pub llm : LlmConfig N
  pub benchmark : BenchmarkConfig N
  -- `pi.timeout_seconds` and `opencode.timeout_seconds`
  pub pi_timeout_seconds : ℕ
  pub opencode_timeout_seconds : ℕ
