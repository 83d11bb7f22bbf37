-- ===== src/Runner/Result.antt =====
-- benchmark/runner.py: the results of a command and of a task, and `LlmUsage` of
-- benchmark/solution.py. `Meta` is the type of the agents' metadata, which is only passed on.
use csharp_llm_benchmark.Prelude.{ℕ, String, Option, List, Bool}
use csharp_llm_benchmark.Prelude.Int.{ℤ}
use csharp_llm_benchmark.Tasks.Model.{Dict}
use csharp_llm_benchmark.Source.Extract.{Warning, ExtractionError}

pub record LlmUsage : Type 0 where
  pub prompt_tokens : Option ℕ
  pub completion_tokens : Option ℕ
  pub total_tokens : Option ℕ
  pub reasoning_tokens : Option ℕ

pub record CommandResult : Type 0 where
  pub exit_code : ℤ
  pub stdout : String
  pub stderr : String
  pub timed_out : Bool

-- One entry of `test_group_results`.
pub record GroupResult : Type 0 where
  pub build_exit_code : ℤ
  pub test_exit_code : Option ℤ
  pub passed_tests : List String
  pub failed_tests : List String

pub record TaskRunResult (N Meta : Type 0) : Type 0 where
  pub task_id : String
  pub status : String
  pub llm_response_time_seconds : N
  pub llm_usage : LlmUsage
  pub workdir : Option String
  pub build : Option CommandResult
  pub test : Option CommandResult
  pub passed_tests : List String
  pub failed_tests : List String
  pub extraction_warnings : List Warning
  pub extraction_error : Option ExtractionError
  pub infrastructure_error : Option String
  pub generator : String
  pub opencode_metadata : Option Meta
  pub pi_metadata : Option Meta
  pub temperature : Option N
  pub suite : String
  pub task_fingerprint : Option String
  pub test_group_results : Option (Dict GroupResult)
