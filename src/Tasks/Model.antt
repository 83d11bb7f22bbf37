-- ===== src/Tasks/Model.antt =====
-- benchmark/tasks.py: the tasks. A path is a text; `N` is the type of the floating-point numbers.
use csharp_llm_benchmark.Prelude.{String, Option, List, map}
use csharp_llm_benchmark.Prelude.Numbers.{Numbers, sum}

-- A `dict` with text keys, in the order of insertion.
abbrev pub Dict {ℓ} : Type ℓ → Type ℓ
Dict V = List (String × V)

abbrev pub keys {ℓ} : {V : Type ℓ} → Dict V → List String
keys d = map (λ (k, v). k) d

abbrev pub values {ℓ} : {V : Type ℓ} → Dict V → List V
values d = map (λ (k, v). v) d

pub record ScoreConfig (N : Type 0) : Type 0 where
  pub compile : N
  pub tests : Dict N
  pub regression : Dict N

pub record TestGroup : Type 0 where
  pub name : String
  pub build_command : String
  pub test_command : String

pub record Task (N : Type 0) : Type 0 where
  pub id : String
  pub name : String
  pub difficulty : String
  pub root : String
  pub prompt_path : String
  pub template_dir : String
  pub tests_dir : String
  pub score : ScoreConfig N
  pub language : String
  pub dotnet_version : String
  pub project_type : String
  pub generated_file : String
  pub solution_class : String
  pub solution_method : String
  pub public_files : List String
  pub hidden_tests : List String
  pub build_command : String
  pub test_command : String
  pub suite : String
  pub role : String
  pub version : String
  pub editable_files : List String
  pub build_project : Option String
  pub test_groups : List TestGroup

module _ {N : Type 0} (num : Numbers N) where
  -- The property `available_points` of `ScoreConfig`.
  unfoldable pub available_points : ScoreConfig N → N
  available_points score = num.add score.compile (sum num (values score.tests))
