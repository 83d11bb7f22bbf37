-- ===== src/Examples/Events.antt =====
-- The copy of two lines, the first of which is a streaming update.
use csharp_llm_benchmark.Prelude.{
  ℕ, ◌≡◌, refl, Option, none, some, List, [], ◌∷◌, ◌==◌, nat_eq, if◌then◌else◌, arith,
}
use csharp_llm_benchmark.Prelude.Text.{Text, codes}
use csharp_llm_benchmark.Events.{copy_compact_events}
use csharp_llm_benchmark.Events.Compact.{compact, copy_compact_events-compact}

-- A line that begins with an "m" is an update.
abbrev type_of : List ℕ → Option Text
type_of [] = none
type_of (c ∷ l) = if c == 109 then some (codes "message_update") else none

abbrev two_lines : List ℕ
two_lines = 109 ∷ 1 ∷ 10 ∷ 120 ∷ 10 ∷ []

keeps_second : compact type_of [] two_lines ≡ 120 ∷ 10 ∷ []
keeps_second = refl

copy_compact_events-compact_example :
    copy_compact_events type_of 6 two_lines ≡ some (compact type_of [] two_lines)
copy_compact_events-compact_example = copy_compact_events-compact type_of 6 two_lines (omega arith)
