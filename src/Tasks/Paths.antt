-- ===== src/Tasks/Paths.antt =====
-- benchmark/workspace.py: `relative_path`. What Python's `pathlib` and `str` answer is a parameter.
use csharp_llm_benchmark.Prelude.{
  String, Option, none, some, List, Bool, ◌||◌, ◌==◌, string_eq, mem, if◌then◌else◌,
}

-- `PurePosixPath(value.replace("\\", "/"))`, and `":" in value`.
pub record PathLib : Type 0 where
  pub is_absolute : String → Bool
  pub parts : String → List String
  pub as_posix : String → String
  pub has_colon : String → Bool
  -- `directory / name`
  pub join : String → String → String

module _ (lib : PathLib) where
  -- `none` is the ValueError of an unsafe path.
  unfoldable pub relative_path : String → Option String
  relative_path value =
      if value == "" || lib.is_absolute value || mem ".." (lib.parts value) || lib.has_colon value
      then none
      else if lib.as_posix value == "."
      then none
      else some (lib.as_posix value)
