-- ===== src/Source/Extract.antt =====
-- benchmark/solution.py: `extract_solution_code`. Python's `re` and its methods of `str` are not in
-- the repository: the searches for the patterns that the file writes are parameters, `Regexes`.
pub mod Accepts
use csharp_llm_benchmark.Prelude.{
  ℕ, Option, none, some, List, [], ◌∷◌, ◌++◌, Bool, true, false, not, ◌&&◌, ◌||◌, ◌==◌, ◌>>=◌,
  if◌then◌else◌, select,
}
use csharp_llm_benchmark.Prelude.Text.{Text, codes, text_eq}
use csharp_llm_benchmark.Source.Strip.{newline, strip_csharp_comments_and_literals}

-- The groups of a match of the pattern of a fenced block.
pub record Fence : Type 0 where
  pub language : Text
  pub body : Text

pub record Regexes : Type 0 where
  -- `re.finditer` of the fence pattern, in the order of the text
  pub fences : Text → List Fence
  -- `group(0)` of `re.search` of the same pattern
  pub fence_text : Text → Option Text
  -- `re.search` of the pattern of a namespace declaration
  pub finds_namespace : Text → Bool
  -- `re.search(_public_class_declaration_pattern(class_name), code)`
  pub finds_public_class : Text → Text → Bool
  -- `str.strip` and `str.lower`
  pub strip : Text → Text
  pub lower : Text → Text

pub data Warning : Type 0 where
  ignored_text : Warning
  non_csharp_block : Text → Warning

pub data ExtractionError : Type 0 where
  empty_code declares_a_namespace : ExtractionError
  missing_public_class : Text → ExtractionError
  -- An exception of the stripping; it never occurs.
  stripping_failed : ExtractionError

pub record ExtractedCode : Type 0 where
  pub code : Option Text
  pub warnings : List Warning
  pub error : Option ExtractionError

abbrev pub empty : Text → Bool
empty [] = true
empty (c ∷ t) = false

abbrev pub is_csharp : Text → Bool
is_csharp language = language == codes "csharp" || language == codes "cs"

abbrev pub head : List Fence → Option Fence
head [] = none
head (f ∷ fs) = some f

abbrev pub or_else : Option Fence → Option Fence → Option Fence
or_else none o = o
or_else (some f) o = some f

abbrev pub failure : List Warning → ExtractionError → ExtractedCode
failure warnings e = record { code = none; warnings = warnings; error = some e }

module _ (re : Regexes) where
  -- The first block marked as C#, or the first block.
  unfoldable pub extract_fenced_code : Text → Option (Text × Text)
  extract_fenced_code text =
      let matches = re.fences text in
      let csharp_match = head (select (λ m. is_csharp (re.lower (re.strip m.language))) matches) in
      do m ← or_else csharp_match (head matches); some (m.body, re.strip m.language)

  unfoldable pub first_fence_text : Text → Text
  first_fence_text text = elim (re.fence_text text) [ none ↦ text | some t ↦ t ]

  unfoldable pub declares_namespace : Text → Option Bool
  declares_namespace code = do
    stripped ← strip_csharp_comments_and_literals code
    some (re.finds_namespace stripped)

  -- The code and the warnings before it is checked.
  unfoldable pub take_code : Text → Text × List Warning
  unfolding extract_fenced_code first_fence_text
  take_code response_text = elim (extract_fenced_code response_text) [
    | none ↦ (response_text, [])
    | some (code, language) ↦ (
      code,
      (if not (re.strip response_text == re.strip (first_fence_text response_text))
            then ignored_text ∷ []
            else [])
          ++ (if not (empty language) && not (is_csharp (re.lower language))
              then non_csharp_block language ∷ []
              else []),
    )
  ]

  -- `required_public_class and not re.search(...)`
  unfoldable pub lacks_class : Option Text → Text → Option Text
  lacks_class none code = none
  lacks_class (some name) code =
      if not (empty name) && not (re.finds_public_class name code) then some name else none

  unfoldable pub check_code : Option Text → List Warning → Text → ExtractedCode
  unfolding declares_namespace lacks_class
  check_code required_public_class warnings code =
      if empty code then failure warnings empty_code else elim (declares_namespace code) [
        | none ↦ failure warnings stripping_failed
        | some true ↦ failure warnings declares_a_namespace
        | some false ↦ elim (lacks_class required_public_class code) [
          | some name ↦ failure warnings (missing_public_class name)
          | none ↦ record { code = some (code ++ newline ∷ []); warnings = warnings; error = none }
        ]
      ]

  unfoldable pub extract_solution_code : Text → Option Text → ExtractedCode
  unfolding take_code check_code
  extract_solution_code response_text required_public_class =
      let (code, warnings) = take_code response_text in
      check_code required_public_class warnings (re.strip code)
