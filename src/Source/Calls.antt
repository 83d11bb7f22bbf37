-- ===== src/Source/Calls.antt =====
-- Each call that `_strip_csharp_comments_and_literals` makes against the machine.
use csharp_llm_benchmark.Prelude.{
  ℕ, suc, ◌≤◌, ◌≡◌, sym, ◌∙◌, Option, List, ◌∷◌, ◌++◌, arith, Bool, true, false, ◌&&◌, ◌||◌, ◌==◌,
  nat_eq, length, length-append, if◌then◌else◌,
}
use csharp_llm_benchmark.Source.Strip.{
  Cursor, space, quote, apostrophe, slash, star, newline, at_sign, dollar, blank_block_comment,
  blank_csharp_string, blank_csharp_char_literal, blank_count, is_interpolated_verbatim,
  is_prefixed, blank_until, string_loop,
}
use csharp_llm_benchmark.Source.Scan.{
  Mode, code, regular, verbatim, char_literal, line_comment, block_comment, scan,
}
use csharp_llm_benchmark.Source.Cursor.{
  ◌▸◌, snoc_lem, length-snoc, length-snoc_two, read_here, read_next, read_third, write_here,
}
use csharp_llm_benchmark.Source.Loops.{Lands, advance_one, advance_two, until-Lands, block-Lands}
use csharp_llm_benchmark.Source.Literals.{string-Lands, char-Lands}

pub length-le-append : (pre rest : List ℕ) → length rest ≤ length (pre ++ rest)
length-le-append pre rest = omega (arith, length-append pre rest)

pub relabel :
    {result result' : Option Cursor} {pre rest : List ℕ} {m : Mode} {n : ℕ}
    → result ≡ result'
    → Lands result' pre m rest n
    → Lands result pre m rest n
relabel step lands = record {
  before = lands.before;
  after = lands.after;
  returned = step ∙ lands.returned;
  scanned = lands.scanned;
  shorter = lands.shorter;
}

-- The calls that `strip_step` makes, each from the character `c` that it tests.
module _ (pre : List ℕ) (c : ℕ) where
  pub line_comment-Lands :
      (d : ℕ) (r : List ℕ)
      → (c == slash) ≡ true
      → (d == slash) ≡ true
      → Lands
          (blank_until (suc (length (pre ++ c ∷ d ∷ r))) (pre ++ c ∷ d ∷ r) (length pre) newline)
          pre
          code
          (c ∷ d ∷ r)
          (length (d ∷ r))
  unfolding scan blank_until
  line_comment-Lands d r e e' =
      advance_one pre code line_comment c space (d ∷ r)
        (ground
          (arith, read_here pre (c ∷ d ∷ r), write_here pre c space (d ∷ r), length-snoc pre space))
        (ground arith)
        (until-Lands (length (pre ++ c ∷ d ∷ r)) (length (d ∷ r)) (pre ▸ space) (d ∷ r)
          (omega (arith, length-le-append pre (c ∷ d ∷ r))) (omega arith))

  pub block_comment-Lands :
      (d : ℕ) (r : List ℕ)
      → (c == slash) ≡ true
      → (d == star) ≡ true
      → Lands
          (blank_block_comment (pre ++ c ∷ d ∷ r) (length pre))
          pre
          code
          (c ∷ d ∷ r)
          (length (d ∷ r))
  unfolding scan blank_block_comment
  block_comment-Lands d r e e' =
      advance_two pre code block_comment c d r
        (ground (
          arith,
          write_here pre c space (d ∷ r),
          write_here (pre ▸ space) d space r,
          length-snoc pre space,
          length-snoc_two pre space space,
        ))
        (ground arith)
        (block-Lands (suc (length ((pre ▸ space ▸ space) ++ r))) (length (d ∷ r))
          (pre ▸ space ▸ space) r (omega (arith, length-le-append (pre ▸ space ▸ space) r))
          (omega arith))

  pub char_literal-Lands :
      (r : List ℕ)
      → (c == apostrophe) ≡ true
      → Lands (blank_csharp_char_literal (pre ++ c ∷ r) (length pre)) pre code (c ∷ r) (length r)
  unfolding scan blank_csharp_char_literal
  char_literal-Lands r e =
      advance_one pre code char_literal c space r
        (ground (arith, write_here pre c space r, length-snoc pre space)) (ground arith)
        (char-Lands (suc (length ((pre ▸ space) ++ r))) (length r) (pre ▸ space) r
          (omega (arith, length-le-append (pre ▸ space) r)) (omega arith))

  pub plain_string-Lands :
      (r : List ℕ)
      → (c == quote) ≡ true
      → Lands (blank_csharp_string (pre ++ c ∷ r) (length pre)) pre code (c ∷ r) (length r)
  unfolding scan blank_csharp_string is_interpolated_verbatim is_prefixed blank_count
  plain_string-Lands r e =
      advance_one pre code regular c space r
        (ground (
          arith,
          read_here pre (c ∷ r),
          read_next pre c r,
          write_here pre c space r,
          length-snoc pre space,
        ))
        (ground arith)
        (string-Lands (suc (length ((pre ▸ space) ++ r))) (length r) false (pre ▸ space) r
          (omega (arith, length-le-append (pre ▸ space) r)) (omega arith))

  pub prefixed_string-Lands :
      (v : Bool) (d : ℕ) (r : List ℕ)
      → (c == (if v then at_sign else dollar)) ≡ true
      → (d == quote) ≡ true
      → Lands
          (blank_csharp_string (pre ++ c ∷ d ∷ r) (length pre))
          pre
          code
          (c ∷ d ∷ r)
          (length (d ∷ r))
  unfolding scan blank_csharp_string is_interpolated_verbatim is_prefixed blank_count
  prefixed_string-Lands true d r e e' =
      advance_two pre code verbatim c d r
        (ground (
          arith,
          read_here pre (c ∷ d ∷ r),
          read_next pre c (d ∷ r),
          write_here pre c space (d ∷ r),
          write_here (pre ▸ space) d space r,
          length-snoc pre space,
          length-snoc (pre ▸ space) space,
        ))
        (ground arith)
        (string-Lands (suc (length ((pre ▸ space ▸ space) ++ r))) (length (d ∷ r)) true
          (pre ▸ space ▸ space) r (omega (arith, length-le-append (pre ▸ space ▸ space) r))
          (omega arith))
  prefixed_string-Lands false d r e e' =
      advance_two pre code regular c d r
        (ground (
          arith,
          read_here pre (c ∷ d ∷ r),
          read_next pre c (d ∷ r),
          write_here pre c space (d ∷ r),
          write_here (pre ▸ space) d space r,
          length-snoc pre space,
          length-snoc (pre ▸ space) space,
        ))
        (ground arith)
        (string-Lands (suc (length ((pre ▸ space ▸ space) ++ r))) (length (d ∷ r)) false
          (pre ▸ space ▸ space) r (omega (arith, length-le-append (pre ▸ space ▸ space) r))
          (omega arith))

  pub interpolated_string-Lands :
      (d q : ℕ) (r : List ℕ)
      → ((c == dollar && d == at_sign) || (c == at_sign && d == dollar)) ≡ true
      → (q == quote) ≡ true
      → Lands
          (blank_csharp_string (pre ++ c ∷ d ∷ q ∷ r) (length pre))
          pre
          code
          (c ∷ d ∷ q ∷ r)
          (length (d ∷ q ∷ r))
  unfolding scan blank_csharp_string is_interpolated_verbatim blank_count
  interpolated_string-Lands d q r e e' =
      relabel
        (ground (
          arith,
          read_here pre (c ∷ d ∷ q ∷ r),
          read_next pre c (d ∷ q ∷ r),
          read_third pre c (d ∷ q ∷ r),
          write_here pre c space (d ∷ q ∷ r),
          write_here (pre ▸ space) d space (q ∷ r),
          write_here (pre ▸ space ▸ space) q space r,
          length-snoc pre space,
          length-snoc (pre ▸ space) space,
          length-snoc (pre ▸ space ▸ space) space,
        ))
        (record {
          before = lands.before;
          after = lands.after;
          returned = lands.returned;
          scanned = lands.scanned ∙ sym three_blanks;
          shorter = lands.shorter;
        })
    where
      lands :
          Lands
            (string_loop
              (suc (length ((pre ▸ space ▸ space ▸ space) ++ r)))
              true
              ((pre ▸ space ▸ space ▸ space) ++ r)
              (length (pre ▸ space ▸ space ▸ space)))
            (pre ▸ space ▸ space ▸ space)
            verbatim
            r
            (length (d ∷ q ∷ r))
      lands =
          string-Lands (suc (length ((pre ▸ space ▸ space ▸ space) ++ r))) (length (d ∷ q ∷ r)) true
            (pre ▸ space ▸ space ▸ space) r
            (omega (arith, length-le-append (pre ▸ space ▸ space ▸ space) r)) (omega arith)

      emits : scan code (c ∷ d ∷ q ∷ r) ≡ space ∷ space ∷ space ∷ scan verbatim r
      emits = ground arith

      three_blanks :
          pre ++ scan code (c ∷ d ∷ q ∷ r) ≡ (pre ▸ space ▸ space ▸ space) ++ scan verbatim r
      three_blanks = rw emits (
          snoc_lem pre space _
          ∙ snoc_lem (pre ▸ space) space _
          ∙ snoc_lem (pre ▸ space ▸ space) space (scan verbatim r))
