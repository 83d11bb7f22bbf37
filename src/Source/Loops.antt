-- ===== src/Source/Loops.antt =====
-- Each loop of benchmark/solution.py, started inside a comment or a literal, returns: it blanks as
-- the machine does in the mode for it, and leaves the cursor where the machine is back in code.
use csharp_llm_benchmark.Prelude.{
  ℕ, zero, suc, ◌≤◌, ◌<◌, ◌≡◌, refl, ap, sym, ◌∙◌, Option, some, ◌&&◌, List, [], ◌∷◌, ◌++◌, arith,
  true, false, ◌==◌, nat_eq, length, Bool-cases, inl, inr, if◌then◌else◌,
}
use csharp_llm_benchmark.Source.Strip.{
  Cursor, newline, space, blank_until, blank_unless_newline, star, slash, is, block_comment_loop,
}
use csharp_llm_benchmark.Source.Scan.{Mode, code, line_comment, block_comment, scan, peek, blank}
use csharp_llm_benchmark.Source.Cursor.{
  ◌▸◌, snoc_lem, length-snoc, length-snoc_two, read_here, read_next, write_here,
}

-- The call returns, having turned the text before its cursor and `rest` into what is before the new
-- cursor and the code after it.
pub record Lands (result : Option Cursor) (pre : List ℕ) (m : Mode) (rest : List ℕ) (n : ℕ)
    : Type 0 where
  pub before : List ℕ
  pub after : List ℕ
  pub returned : result ≡ some (before ++ after, length before)
  pub scanned : before ++ scan code after ≡ pre ++ scan m rest
  pub shorter : length after ≤ n

-- `Lands` at a call that goes on from a cursor further on.
pub advance_one :
    {result next : Option Cursor} {n : ℕ} (pre : List ℕ) (m m' : Mode) (c v : ℕ) (r : List ℕ)
    → result ≡ next
    → scan m (c ∷ r) ≡ v ∷ scan m' r
    → Lands next (pre ▸ v) m' r n
    → Lands result pre m (c ∷ r) n
advance_one pre m m' c v r step emits lands = record {
  before = lands.before;
  after = lands.after;
  returned = step ∙ lands.returned;
  scanned = rw emits (lands.scanned ∙ sym (snoc_lem pre v (scan m' r)));
  shorter = lands.shorter;
}

-- The same for two blanks.
pub advance_two :
    {result next : Option Cursor} {n : ℕ} (pre : List ℕ) (m m' : Mode) (c d : ℕ) (r : List ℕ)
    → result ≡ next
    → scan m (c ∷ d ∷ r) ≡ space ∷ space ∷ scan m' r
    → Lands next (pre ▸ space ▸ space) m' r n
    → Lands result pre m (c ∷ d ∷ r) n
advance_two pre m m' c d r step emits lands = record {
  before = lands.before;
  after = lands.after;
  returned = step ∙ lands.returned;
  scanned =
      rw emits
        (lands.scanned ∙ sym (snoc_lem pre space _ ∙ snoc_lem (pre ▸ space) space (scan m' r)));
  shorter = lands.shorter;
}

-- The call has returned, behind the comment or the literal.
pub land_here :
    (n : ℕ) (pre rest : List ℕ)
    → length rest ≤ n
    → Lands (some (pre ++ rest, length pre)) pre code rest n
land_here n pre rest h = record {
  before = pre;
  after = rest;
  returned = refl;
  scanned = refl;
  shorter = omega arith;
}

-- The text ended inside the comment or the literal.
pub land_end :
    {result : Option Cursor} (n : ℕ) (pre : List ℕ) (m : Mode)
    → result ≡ some (pre ++ [], length pre)
    → Lands result pre m [] n
unfolding scan
land_end n pre m e = record {
  before = pre;
  after = [];
  returned = e;
  scanned = refl;
  shorter = omega arith;
}

pub write_blank :
    (pre : List ℕ) (c : ℕ) (r : List ℕ)
    → blank_unless_newline (pre ++ c ∷ r) (length pre) c ≡ some ((pre ▸ blank c) ++ r)
unfolding blank_unless_newline
write_blank pre c r = ground (arith, write_here pre c space r, snoc_lem pre c r)

until_step :
    (f : ℕ) (pre : List ℕ) (c : ℕ) (r : List ℕ)
    → blank_until (suc f) (pre ++ c ∷ r) (length pre) newline ≡ (
        if c == newline
        then some (pre ++ c ∷ r, length pre)
        else blank_until f ((pre ▸ space) ++ r) (length (pre ▸ space)) newline)
unfolding blank_until
until_step f pre c r =
    ground (arith, read_here pre (c ∷ r), write_here pre c space r, length-snoc pre space)

newline_ends_comment :
    (c : ℕ) (r : List ℕ) → (c == newline) ≡ true → scan code (c ∷ r) ≡ scan line_comment (c ∷ r)
unfolding scan
newline_ends_comment c r e = ground arith

pub until-Lands :
    (f n : ℕ) (pre rest : List ℕ)
    → length rest < f
    → length rest ≤ n
    → Lands (blank_until f (pre ++ rest) (length pre) newline) pre line_comment rest n
unfolding scan blank_until
until-Lands zero n pre rest h k = absurd (omega arith)
until-Lands (suc f) n pre [] h k = land_end n pre line_comment (ground (arith, read_here pre []))
until-Lands (suc f) n pre (c ∷ r) h k = elim (Bool-cases (c == newline)) [
  | inl e ↦ record {
    before = pre;
    after = c ∷ r;
    returned = until_step f pre c r ∙ rw e;
    scanned = ap (λ (l : List ℕ). pre ++ l) (newline_ends_comment c r e);
    shorter = omega arith;
  }
  | inr e ↦
      advance_one pre line_comment line_comment c space r (until_step f pre c r ∙ rw e) (rw e)
        (until-Lands f n (pre ▸ space) r (omega arith) (omega arith))
]

-- The block comment.
block_closes :
    (f : ℕ) (pre : List ℕ) (c d : ℕ) (r : List ℕ)
    → (c == star) ≡ true
    → (d == slash) ≡ true
    → block_comment_loop (suc f) (pre ++ c ∷ d ∷ r) (length pre)
      ≡ some ((pre ▸ space ▸ space) ++ r, length (pre ▸ space ▸ space))
unfolding block_comment_loop
block_closes f pre c d r e e' = ground (
  arith,
  read_here pre (c ∷ d ∷ r),
  read_next pre c (d ∷ r),
  write_here pre c space (d ∷ r),
  write_here (pre ▸ space) d space r,
  length-snoc pre space,
  length-snoc_two pre space space,
)

block_goes_on :
    (f : ℕ) (pre : List ℕ) (c : ℕ) (r : List ℕ)
    → (c == star && is (peek r) slash) ≡ false
    → block_comment_loop (suc f) (pre ++ c ∷ r) (length pre)
      ≡ block_comment_loop f ((pre ▸ blank c) ++ r) (length (pre ▸ blank c))
unfolding block_comment_loop
block_goes_on f pre c r e = ground (
  arith,
  read_here pre (c ∷ r),
  read_next pre c r,
  write_blank pre c r,
  length-snoc pre (blank c),
)

pub block-Lands :
    (f n : ℕ) (pre rest : List ℕ)
    → length rest < f
    → length rest ≤ n
    → Lands (block_comment_loop f (pre ++ rest) (length pre)) pre block_comment rest n
unfolding scan block_comment_loop
block-Lands zero n pre rest h k = absurd (omega arith)
block-Lands (suc f) n pre [] h k = land_end n pre block_comment (ground (arith, read_here pre []))
block-Lands (suc f) n pre (c ∷ []) h k =
    advance_one pre block_comment block_comment c (blank c) []
      (block_goes_on f pre c [] (ground arith)) (ground arith)
      (block-Lands f n (pre ▸ blank c) [] (omega arith) (omega arith))
block-Lands (suc f) n pre (c ∷ d ∷ r) h k = elim (Bool-cases (c == star && d == slash)) [
  | inl e ↦
      advance_two pre block_comment code c d r
        (block_closes f pre c d r (ground arith) (ground arith)) (rw e)
        (land_here n (pre ▸ space ▸ space) r (omega arith))
  | inr e ↦
      advance_one pre block_comment block_comment c (blank c) (d ∷ r)
        (block_goes_on f pre c (d ∷ r) e) (rw e)
        (block-Lands f n (pre ▸ blank c) (d ∷ r) (omega arith) (omega arith))
]
