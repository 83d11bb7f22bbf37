-- ===== src/Source/Scan.antt =====
-- A description of C# comments and literals that is independent of the program's: a machine with
-- modes, which reads one character at a time and looks ahead over at most two.
use csharp_llm_benchmark.Prelude.{
  ℕ, zero, suc, List, [], ◌∷◌, Option, none, some, ◌&&◌, ◌==◌, nat_eq, if◌then◌else◌,
}
use csharp_llm_benchmark.Source.Strip.{
  is, in_range, newline, space, quote, dollar, apostrophe, star, slash, at_sign, backslash,
}

-- `skip n mode` blanks the next n characters, then goes on in `mode`.
pub data Mode : Type 0 where
  code line_comment block_comment regular verbatim char_literal : Mode
  skip : ℕ → Mode → Mode

abbrev pub peek : List ℕ → Option ℕ
peek [] = none
peek (c ∷ r) = some c

abbrev pub peek_second : List ℕ → Option ℕ
peek_second [] = none
peek_second (c ∷ r) = peek r

abbrev pub blank : ℕ → ℕ
blank c = if c == newline then c else space

-- What the machine writes for the character `c` before the text `r`, and its next mode.
abbrev pub emit : Mode → ℕ → List ℕ → ℕ × Mode
emit code c r =
    if c == slash && is (peek r) slash
    then (space, line_comment)
    else if c == slash && is (peek r) star
    then (space, skip 1 block_comment)
    else if c == quote
    then (space, regular)
    else if c == at_sign && is (peek r) quote
    then (space, skip 1 verbatim)
    else if c == dollar && is (peek r) quote
    then (space, skip 1 regular)
    else if c == dollar && (is (peek r) at_sign && is (peek_second r) quote)
    then (space, skip 2 verbatim)
    else if c == at_sign && (is (peek r) dollar && is (peek_second r) quote)
    then (space, skip 2 verbatim)
    else if c == apostrophe
    then (space, char_literal)
    else (c, code)
emit line_comment c r = if c == newline then (c, code) else (space, line_comment)
emit block_comment c r =
    if c == star && is (peek r) slash then (space, skip 1 code) else (blank c, block_comment)
emit regular c r =
    if c == quote
    then (space, code)
    else if c == backslash && in_range (peek r)
    then (space, skip 1 regular)
    else (blank c, regular)
emit verbatim c r =
    if c == quote
    then (if is (peek r) quote then (space, skip 1 verbatim) else (space, code))
    else (blank c, verbatim)
emit char_literal c r =
    if c == backslash && in_range (peek r)
    then (space, skip 1 char_literal)
    else if c == apostrophe
    then (space, code)
    else (blank c, char_literal)
emit (skip zero m) c r = (space, m)
emit (skip (suc zero) m) c r = (space, m)
emit (skip (suc (suc n)) m) c r = (space, skip (suc n) m)

unfoldable pub scan : Mode → List ℕ → List ℕ
scan _ [] = []
scan m (c ∷ r) = (emit m c r).0 ∷ scan (emit m c r).1 r
