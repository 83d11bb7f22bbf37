-- ===== src/Examples/Data.antt =====
-- Test data: a task of each suite, a docker that always succeeds, and concrete libraries.
use csharp_llm_benchmark.Prelude.{
  ℕ, String, Option, none, some, List, [], ◌∷◌, Bool, true, false, ◌==◌, string_eq, if◌then◌else◌,
  ◌&&◌, nat_eq,
}
use csharp_llm_benchmark.Prelude.Text.{Text, codes, text_eq}
use csharp_llm_benchmark.Prelude.Int.{pos}
use csharp_llm_benchmark.Source.Extract.{Regexes}
use csharp_llm_benchmark.Tasks.Model.{ScoreConfig, Task}
use csharp_llm_benchmark.Tasks.Paths.{PathLib}
use csharp_llm_benchmark.Runner.Result.{LlmUsage, CommandResult, TaskRunResult}
use csharp_llm_benchmark.Runner.Docker.{TrxElement, World, Machine, completed}
use csharp_llm_benchmark.Runner.Trx.{Strings}
use csharp_llm_benchmark.Runner.Groups.{Delivery, Setting}

abbrev pub starts_with : Text → Text → Bool
starts_with [] t = true
starts_with (c ∷ s) [] = false
starts_with (c ∷ s) (d ∷ t) = c == d && starts_with s t

-- Each answer is one block of C#.
abbrev pub one_block : Regexes
one_block = record {
  fences = λ t. record { language = codes "csharp"; body = t } ∷ [];
  fence_text = λ t. some t;
  finds_namespace = starts_with (codes "namespace ");
  finds_public_class = λ name t. starts_with name t;
  strip = λ t. t;
  lower = λ t. t;
}

abbrev pub plain_paths : PathLib
plain_paths = record {
  is_absolute = λ p. p == "/etc";
  parts = λ p. p ∷ [];
  as_posix = λ p. p;
  has_colon = λ p. false;
  join = λ d p. p;
}

abbrev pub score_of : ℕ → ScoreConfig ℕ
score_of compile = record {
  compile = compile;
  tests = ("Adds", 60) ∷ [];
  regression = ("Keeps", 40) ∷ [];
}

abbrev pub task_of : String → ScoreConfig ℕ → Task ℕ
task_of suite score = record {
  id = "hello";
  name = "Hello";
  difficulty = "easy";
  root = "tasks/hello";
  prompt_path = "prompt.md";
  template_dir = "template";
  tests_dir = "tests";
  score = score;
  language = "csharp";
  dotnet_version = "8.0";
  project_type = "console";
  generated_file = "Solution.cs";
  solution_class = "Solution";
  solution_method = "Run";
  public_files = "App.csproj" ∷ [];
  hidden_tests = "Tests.cs" ∷ [];
  build_command = "dotnet build";
  test_command = "dotnet test";
  suite = suite;
  role = "scored";
  version = "1";
  editable_files = "App.cs" ∷ [];
  build_project = some "App.csproj";
  test_groups =
      record { name = "feature"; build_command = "dotnet build f"; test_command = "dotnet test f" }
      ∷ record {
        name = "regression";
        build_command = "dotnet build r";
        test_command = "dotnet test r";
      }
      ∷ [];
}

abbrev pub greenfield_task : Task ℕ
greenfield_task = task_of "greenfield" (score_of 10)

abbrev pub evolution_task : Task ℕ
evolution_task = task_of "evolution" (score_of 0)

abbrev pub usage : LlmUsage
usage = record {
  prompt_tokens = none;
  completion_tokens = none;
  total_tokens = some 12;
  reasoning_tokens = none;
}

abbrev pub passed_result : TaskRunResult ℕ String
passed_result = record {
  task_id = "hello";
  status = "passed";
  llm_response_time_seconds = 3;
  llm_usage = usage;
  workdir = none;
  build = none;
  test = none;
  passed_tests = "Adds" ∷ [];
  failed_tests = [];
  extraction_warnings = [];
  extraction_error = none;
  infrastructure_error = none;
  generator = "llm";
  opencode_metadata = none;
  pi_metadata = none;
  temperature = some 1;
  suite = "greenfield";
  task_fingerprint = none;
  test_group_results = some (
      (
        "feature",
        record {
          build_exit_code = pos 0;
          test_exit_code = some (pos 0);
          passed_tests = "Adds" ∷ [];
          failed_tests = [];
        },
      )
      ∷ (
        "regression",
        record {
          build_exit_code = pos 0;
          test_exit_code = some (pos 0);
          passed_tests = "Keeps" ∷ [];
          failed_tests = [];
        },
      )
      ∷ []);
}

abbrev pub plain_strings : Strings
plain_strings = record {
  after_last_dot = λ s. s;
  before_parenthesis = λ s. s;
  strip = λ s. s;
  sorted = λ l. l;
}

abbrev pub passed_test : String → List (Option (List TrxElement))
passed_test name =
    some (
      record {
        is_unit_test_result = true;
        test_name = some name;
        test_id = none;
        outcome = some "Passed";
      }
      ∷ [])
    ∷ []

-- Every command succeeds, and the results say that every test passed.
abbrev pub good_world : World
good_world = record {
  process = λ events command. completed (pos 0) "" "";
  cancelled = λ events. false;
  archive = λ events. some ("TestResults" ∷ []);
  escapes = λ name. name == "../x";
  result_files = λ events directory.
      passed_test (if directory == "TestResults/regression" then "Keeps" else "Adds");
}

abbrev pub setting : Setting ℕ String
setting = record {
  config = record {
    image = "sdk";
    timeout_seconds = 60;
    memory_limit = "1g";
    cpus = "1";
    pids_limit = "256";
    network = "none";
    read_only = true;
    cap_drop = "ALL" ∷ [];
  };
  strings = plain_strings;
  task_fingerprint = λ task. "sha";
  restores = λ task snapshot. true;
  workdir_name = "w1";
}

abbrev pub delivery : Delivery ℕ String String
delivery = record {
  extracted_code = record { code = some (codes "class A"); warnings = []; error = none };
  llm_response_time_seconds = 3;
  llm_usage = usage;
  generator = "llm";
  opencode_metadata = none;
  pi_metadata = none;
  temperature = some 1;
  generation_infrastructure_error = none;
  project_snapshot = some "delivered";
}

abbrev pub idle : Machine
idle = record { active = "other" ∷ []; events = [] }

abbrev pub good_build : CommandResult
good_build = record { exit_code = pos 0; stdout = ""; stderr = ""; timed_out = false }
