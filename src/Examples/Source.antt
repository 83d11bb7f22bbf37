-- ===== src/Examples/Source.antt =====
-- The theorems on benchmark/solution.py at concrete texts.
use csharp_llm_benchmark.Prelude.{ℕ, ◌≡◌, ◌↔◌, some, List, [], ◌∷◌, ◌++◌, length}
use csharp_llm_benchmark.Prelude.Text.{codes}
use csharp_llm_benchmark.Source.Strip.{strip_csharp_comments_and_literals, newline}
use csharp_llm_benchmark.Source.Scan.{code, scan}
use csharp_llm_benchmark.Source.Refine.{strip-scan}
use csharp_llm_benchmark.Source.Shape.{strip-Blanks, Blanks}
use csharp_llm_benchmark.Source.Extract.{extract_solution_code, take_code}
use csharp_llm_benchmark.Source.Extract.Accepts.{
  IsAccepted, TakenFrom, extract_iff, take_code_source,
}
use csharp_llm_benchmark.Examples.Data.{one_block}

-- A run on a text with an unclosed string.
strips_string :
    strip_csharp_comments_and_literals (codes "a=@\"b\"\"c//") ≡ some (codes "a=        ")
unfolding scan
strips_string = strip-scan (codes "a=@\"b\"\"c//")

strip-scan_example :
    strip_csharp_comments_and_literals (codes "x /* \"y\" */ 'c'")
    ≡ some (scan code (codes "x /* \"y\" */ 'c'"))
strip-scan_example = strip-scan (codes "x /* \"y\" */ 'c'")

strip-Blanks_example :
    (out : List ℕ) × (strip_csharp_comments_and_literals (codes "a // b") ≡ some out)
    × Blanks out (codes "a // b")
    × (length out ≡ length (codes "a // b"))
strip-Blanks_example = strip-Blanks (codes "a // b")

extract_iff_example :
    ((extract_solution_code one_block (codes "A{}") (some (codes "A"))).code
      ≡ some (codes "A{}" ++ newline ∷ []))
    ↔ (IsAccepted one_block
          (some (codes "A"))
          (one_block.strip (take_code one_block (codes "A{}")).0)
        × (codes "A{}" ++ newline ∷ []
            ≡ one_block.strip (take_code one_block (codes "A{}")).0 ++ newline ∷ []))
extract_iff_example =
    extract_iff one_block (codes "A{}") (some (codes "A")) (codes "A{}" ++ newline ∷ [])

take_code_source_example :
    TakenFrom one_block
      (codes "A{}")
      (one_block.fences (codes "A{}"))
      (take_code one_block (codes "A{}")).0
take_code_source_example = take_code_source one_block (codes "A{}")
