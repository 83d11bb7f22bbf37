-- ===== src/Runner/Trx.antt =====
-- benchmark/runner.py: `parse_trx_results` and `_normalize_test_name`. The methods of `str` and
-- `sorted` are parameters.
use csharp_llm_benchmark.Prelude.{
  String, Option, none, some, List, [], ◌∷◌, Bool, false, not, ◌==◌, string_eq, mem, select,
  if◌then◌else◌,
}
use csharp_llm_benchmark.Runner.Docker.{TrxElement}

pub record Strings : Type 0 where
  -- `s.split(".")[-1]`, `s.split("(")[0]` and `s.strip()`
  pub after_last_dot : String → String
  pub before_parenthesis : String → String
  pub strip : String → String
  pub sorted : List String → List String

-- `set.add`, `|`, `-`, on sets as lists without repetition.
abbrev pub add : String → List String → List String
add x xs = if mem x xs then xs else x ∷ xs

abbrev pub union : List String → List String → List String
union [] ys = ys
union (x ∷ xs) ys = add x (union xs ys)

abbrev pub minus : List String → List String → List String
minus xs ys = select (λ x. not (mem x ys)) xs

pub record Results : Type 0 where
  pub passed : List String
  pub failed : List String

abbrev pub no_results : Results
no_results = record { passed = []; failed = [] }

-- `a or b` on attributes: an empty text counts as missing.
abbrev pub or_attribute : Option String → Option String → Option String
or_attribute none b = b
or_attribute (some a) b = if a == "" then b else some a

module _ (lib : Strings) where
  unfoldable pub normalize_test_name : String → String
  normalize_test_name test_name = lib.strip (lib.before_parenthesis (lib.after_last_dot test_name))

  -- `outcome == "Passed"`
  abbrev pub is_passed : Option String → Bool
  is_passed none = false
  is_passed (some outcome) = outcome == "Passed"

  abbrev pub record_result : Option String → Option String → Results → Results
  record_result none outcome r = r
  record_result (some test_name) outcome r =
      let normalized = normalize_test_name test_name in
      if test_name == ""
      then r
      else if is_passed outcome
      then record r { passed = add normalized r.passed }
      else record r { failed = add normalized r.failed }

  unfoldable pub parse_elements : List TrxElement → Results → Results
  unfolding normalize_test_name
  parse_elements [] r = r
  parse_elements (e ∷ es) r = parse_elements es (
      if e.is_unit_test_result
      then record_result (or_attribute e.test_name e.test_id) e.outcome r
      else r)

  unfoldable pub parse_files : List (Option (List TrxElement)) → Results → Results
  unfolding parse_elements
  parse_files [] r = r
  parse_files (none ∷ files) r = parse_files files r
  parse_files (some elements ∷ files) r = parse_files files (parse_elements elements r)

  unfoldable pub parse_trx_results : List (Option (List TrxElement)) → Results
  unfolding parse_files
  parse_trx_results files = parse_files files no_results
