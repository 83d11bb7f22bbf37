-- ===== src/Source/Refine.antt =====
-- The program's stripping of comments and literals is the machine's.
use csharp_llm_benchmark.Prelude.{
  ℕ, zero, suc, ◌<◌, ◌≡◌, refl, ap, ◌∙◌, some, List, [], ◌∷◌, ◌++◌, arith, Bool, true, false, ◌&&◌,
  ◌==◌, nat_eq, length, if◌then◌else◌, ◌>>=◌,
}
use csharp_llm_benchmark.Source.Strip.{
  quote, apostrophe, slash, star, at_sign, dollar, is, starts_csharp_string, strip_step, strip_loop,
  strip_csharp_comments_and_literals,
}
use csharp_llm_benchmark.Source.Scan.{code, scan, peek, peek_second}
use csharp_llm_benchmark.Source.Cursor.{
  ◌▸◌, snoc_lem, length-snoc, read_here, read_next, read_third,
}
use csharp_llm_benchmark.Source.Loops.{Lands, advance_one, land_here}
use csharp_llm_benchmark.Source.Calls.{
  relabel, line_comment-Lands, block_comment-Lands, char_literal-Lands, plain_string-Lands,
  prefixed_string-Lands, interpolated_string-Lands,
}

-- What begins at the character `c` before the text `r`.
data Kind : Type 0 where
  line block plain dollar_at at_dollar char other : Kind
  prefixed : Bool → Kind

abbrev kind : ℕ → List ℕ → Kind
kind c r =
    if c == slash && is (peek r) slash
    then line
    else if c == slash && is (peek r) star
    then block
    else if c == quote
    then plain
    else if c == at_sign && is (peek r) quote
    then prefixed true
    else if c == dollar && is (peek r) quote
    then prefixed false
    else if c == dollar && (is (peek r) at_sign && is (peek_second r) quote)
    then dollar_at
    else if c == at_sign && (is (peek r) dollar && is (peek_second r) quote)
    then at_dollar
    else if c == apostrophe
    then char
    else other

step-Lands :
    (k : Kind) (pre : List ℕ) (c : ℕ) (r : List ℕ)
    → kind c r ≡ k
    → Lands (strip_step (pre ++ c ∷ r) (length pre) c) pre code (c ∷ r) (length r)
unfolding strip_step starts_csharp_string
step-Lands line pre c [] e = absurd (ground arith)
step-Lands line pre c (d ∷ r) e =
    relabel (ground (arith, read_next pre c (d ∷ r)))
      (line_comment-Lands pre c d r (ground arith) (ground arith))
step-Lands block pre c [] e = absurd (ground arith)
step-Lands block pre c (d ∷ r) e =
    relabel (ground (arith, read_next pre c (d ∷ r)))
      (block_comment-Lands pre c d r (ground arith) (ground arith))
step-Lands plain pre c r e =
    relabel (ground (arith, read_here pre (c ∷ r), read_next pre c r))
      (plain_string-Lands pre c r (ground arith))
step-Lands (prefixed v) pre c [] e = absurd (ground arith)
step-Lands (prefixed v) pre c (d ∷ r) e =
    relabel (ground (arith, read_here pre (c ∷ d ∷ r), read_next pre c (d ∷ r)))
      (prefixed_string-Lands pre c v d r (ground arith) (ground arith))
step-Lands dollar_at pre c [] e = absurd (ground arith)
step-Lands dollar_at pre c (d ∷ []) e = absurd (ground arith)
step-Lands dollar_at pre c (d ∷ q ∷ r) e =
    relabel
      (ground (
        arith,
        read_here pre (c ∷ d ∷ q ∷ r),
        read_next pre c (d ∷ q ∷ r),
        read_third pre c (d ∷ q ∷ r),
      ))
      (interpolated_string-Lands pre c d q r (ground arith) (ground arith))
step-Lands at_dollar pre c [] e = absurd (ground arith)
step-Lands at_dollar pre c (d ∷ []) e = absurd (ground arith)
step-Lands at_dollar pre c (d ∷ q ∷ r) e =
    relabel
      (ground (
        arith,
        read_here pre (c ∷ d ∷ q ∷ r),
        read_next pre c (d ∷ q ∷ r),
        read_third pre c (d ∷ q ∷ r),
      ))
      (interpolated_string-Lands pre c d q r (ground arith) (ground arith))
step-Lands char pre c r e =
    relabel (ground (arith, read_here pre (c ∷ r), read_next pre c r, read_third pre c r))
      (char_literal-Lands pre c r (ground arith))
step-Lands other pre c r e =
    advance_one pre code code c c r
      (ground (
        arith,
        read_here pre (c ∷ r),
        read_next pre c r,
        read_third pre c r,
        snoc_lem pre c r,
        length-snoc pre c,
      ))
      (unfold scan in ground arith) (land_here (length r) (pre ▸ c) r (omega arith))

strip_loop-scan :
    (f : ℕ) (pre rest : List ℕ)
    → length rest < f
    → strip_loop f (pre ++ rest) (length pre) ≡ some (pre ++ scan code rest)
unfolding strip_loop
strip_loop-scan zero pre rest h = absurd (omega arith)
strip_loop-scan (suc f) pre [] h = unfold scan in ground (arith, read_here pre [])
strip_loop-scan (suc f) pre (c ∷ r) h =
    rw (read_here pre (c ∷ r), strip_loop)
      (let l = step-Lands (kind c r) pre c r refl in
        rw (l.returned, ◌>>=◌)
          (strip_loop-scan f l.before l.after (omega (arith, l.shorter)) ∙ ap some l.scanned))

-- For every source text, stripping returns: no index is out of range and each loop ends, and the
-- result is what the machine writes.
pub strip-scan : (text : List ℕ) → strip_csharp_comments_and_literals text ≡ some (scan code text)
unfolding strip_csharp_comments_and_literals
strip-scan text = strip_loop-scan (suc (length text)) [] text (omega arith)
