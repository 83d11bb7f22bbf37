-- ===== src/Source/Literals.antt =====
-- The loops of `_blank_csharp_string` and `_blank_csharp_char_literal` (benchmark/solution.py).
use csharp_llm_benchmark.Prelude.{
  ℕ, zero, suc, ◌<◌, ◌≤◌, ◌≡◌, ◌≢◌, ◌⊎◌, refl, some, List, [], ◌∷◌, ◌++◌, arith, Bool, true, false,
  not, ◌&&◌, ◌==◌, nat_eq, length, inl, inr, if◌then◌else◌,
}
use csharp_llm_benchmark.Source.Strip.{
  space, quote, backslash, apostrophe, is, in_range, string_loop, char_literal_loop,
}
use csharp_llm_benchmark.Source.Scan.{
  Mode, code, regular, verbatim, char_literal, scan, peek, blank,
}
use csharp_llm_benchmark.Source.Cursor.{
  ◌▸◌, length-snoc, length-snoc_two, read_here, read_next, write_here,
}
use csharp_llm_benchmark.Source.Loops.{
  Lands, advance_one, advance_two, land_here, land_end, write_blank,
}

abbrev pub string_mode : Bool → Mode
string_mode true = verbatim
string_mode false = regular

-- What a loop does with the character at its cursor.
pub data Move : Type 0 where
  closes pairs goes_on : Move

abbrev string_move : Bool → ℕ → List ℕ → Move
string_move v c r =
    if c == quote
    then (if v && is (peek r) quote then Move.pairs else Move.closes)
    else if not v && (c == backslash && in_range (peek r))
    then Move.pairs
    else Move.goes_on

abbrev char_move : ℕ → List ℕ → Move
char_move c r =
    if c == backslash && in_range (peek r)
    then Move.pairs
    else if c == apostrophe
    then Move.closes
    else Move.goes_on

Move-cases : (m : Move) → (m ≡ Move.closes) ⊎ (m ≡ Move.pairs) ⊎ (m ≡ Move.goes_on)
Move-cases Move.closes = inl refl
Move-cases Move.pairs = inr (inl refl)
Move-cases Move.goes_on = inr (inr refl)

module _ (v : Bool) (f : ℕ) (pre : List ℕ) (c : ℕ) where
  string_closes :
      (r : List ℕ)
      → string_move v c r ≡ Move.closes
      → string_loop (suc f) v (pre ++ c ∷ r) (length pre)
        ≡ some ((pre ▸ space) ++ r, length (pre ▸ space))
  unfolding string_loop
  string_closes r e = ground (
    arith,
    read_here pre (c ∷ r),
    read_next pre c r,
    write_here pre c space r,
    length-snoc pre space,
  )

  string_pair :
      (d : ℕ) (r : List ℕ)
      → string_move v c (d ∷ r) ≡ Move.pairs
      → string_loop (suc f) v (pre ++ c ∷ d ∷ r) (length pre)
        ≡ string_loop f v ((pre ▸ space ▸ space) ++ r) (length (pre ▸ space ▸ space))
  unfolding string_loop
  string_pair d r e = ground (
    arith,
    read_here pre (c ∷ d ∷ r),
    read_next pre c (d ∷ r),
    write_here pre c space (d ∷ r),
    write_here (pre ▸ space) d space r,
    length-snoc pre space,
    length-snoc_two pre space space,
  )

  string_goes_on :
      (r : List ℕ)
      → string_move v c r ≡ Move.goes_on
      → string_loop (suc f) v (pre ++ c ∷ r) (length pre)
        ≡ string_loop f v ((pre ▸ blank c) ++ r) (length (pre ▸ blank c))
  unfolding string_loop
  string_goes_on r e = ground (
    arith,
    read_here pre (c ∷ r),
    read_next pre c r,
    write_blank pre c r,
    length-snoc pre (blank c),
  )

string_emits_close :
    (v : Bool) (c : ℕ) (r : List ℕ)
    → string_move v c r ≡ Move.closes
    → scan (string_mode v) (c ∷ r) ≡ space ∷ scan code r
unfolding scan
string_emits_close true c r e = ground arith
string_emits_close false c r e = ground arith

string_emits_pair :
    (v : Bool) (c d : ℕ) (r : List ℕ)
    → string_move v c (d ∷ r) ≡ Move.pairs
    → scan (string_mode v) (c ∷ d ∷ r) ≡ space ∷ space ∷ scan (string_mode v) r
unfolding scan
string_emits_pair true c d r e = ground arith
string_emits_pair false c d r e = ground arith

string_emits_rest :
    (v : Bool) (c : ℕ) (r : List ℕ)
    → string_move v c r ≡ Move.goes_on
    → scan (string_mode v) (c ∷ r) ≡ blank c ∷ scan (string_mode v) r
unfolding scan
string_emits_rest true c r e = ground arith
string_emits_rest false c r e = ground arith

string_pair_at_end : (v : Bool) (c : ℕ) → string_move v c [] ≢ Move.pairs
string_pair_at_end v c e = ground arith

pub string-Lands :
    (f n : ℕ) (v : Bool) (pre rest : List ℕ)
    → length rest < f
    → length rest ≤ n
    → Lands (string_loop f v (pre ++ rest) (length pre)) pre (string_mode v) rest n
unfolding string_loop
string-Lands zero n v pre rest h k = absurd (omega arith)
string-Lands (suc f) n v pre [] h k =
    land_end n pre (string_mode v) (ground (arith, read_here pre []))
string-Lands (suc f) n v pre (c ∷ []) h k = elim (Move-cases (string_move v c [])) [
  | inl e ↦
      advance_one pre (string_mode v) code c space [] (string_closes v f pre c [] e)
        (string_emits_close v c [] e) (land_here n (pre ▸ space) [] (omega arith))
  | inr (inl e) ↦ absurd (string_pair_at_end v c e)
  | inr (inr e) ↦
      advance_one pre (string_mode v) (string_mode v) c (blank c) [] (string_goes_on v f pre c [] e)
        (string_emits_rest v c [] e)
        (string-Lands f n v (pre ▸ blank c) [] (omega arith) (omega arith))
]
string-Lands (suc f) n v pre (c ∷ d ∷ r) h k = elim (Move-cases (string_move v c (d ∷ r))) [
  | inl e ↦
      advance_one pre (string_mode v) code c space (d ∷ r) (string_closes v f pre c (d ∷ r) e)
        (string_emits_close v c (d ∷ r) e) (land_here n (pre ▸ space) (d ∷ r) (omega arith))
  | inr (inl e) ↦
      advance_two pre (string_mode v) (string_mode v) c d r (string_pair v f pre c d r e)
        (string_emits_pair v c d r e)
        (string-Lands f n v (pre ▸ space ▸ space) r (omega arith) (omega arith))
  | inr (inr e) ↦
      advance_one pre (string_mode v) (string_mode v) c (blank c) (d ∷ r)
        (string_goes_on v f pre c (d ∷ r) e) (string_emits_rest v c (d ∷ r) e)
        (string-Lands f n v (pre ▸ blank c) (d ∷ r) (omega arith) (omega arith))
]

module _ (f : ℕ) (pre : List ℕ) (c : ℕ) where
  char_closes :
      (r : List ℕ)
      → char_move c r ≡ Move.closes
      → char_literal_loop (suc f) (pre ++ c ∷ r) (length pre)
        ≡ some ((pre ▸ space) ++ r, length (pre ▸ space))
  unfolding char_literal_loop
  char_closes r e = ground (
    arith,
    read_here pre (c ∷ r),
    read_next pre c r,
    write_here pre c space r,
    length-snoc pre space,
  )

  char_pair :
      (d : ℕ) (r : List ℕ)
      → char_move c (d ∷ r) ≡ Move.pairs
      → char_literal_loop (suc f) (pre ++ c ∷ d ∷ r) (length pre)
        ≡ char_literal_loop f ((pre ▸ space ▸ space) ++ r) (length (pre ▸ space ▸ space))
  unfolding char_literal_loop
  char_pair d r e = ground (
    arith,
    read_here pre (c ∷ d ∷ r),
    read_next pre c (d ∷ r),
    write_here pre c space (d ∷ r),
    write_here (pre ▸ space) d space r,
    length-snoc pre space,
    length-snoc_two pre space space,
  )

  char_goes_on :
      (r : List ℕ)
      → char_move c r ≡ Move.goes_on
      → char_literal_loop (suc f) (pre ++ c ∷ r) (length pre)
        ≡ char_literal_loop f ((pre ▸ blank c) ++ r) (length (pre ▸ blank c))
  unfolding char_literal_loop
  char_goes_on r e = ground (
    arith,
    read_here pre (c ∷ r),
    read_next pre c r,
    write_blank pre c r,
    length-snoc pre (blank c),
  )

pub char-Lands :
    (f n : ℕ) (pre rest : List ℕ)
    → length rest < f
    → length rest ≤ n
    → Lands (char_literal_loop f (pre ++ rest) (length pre)) pre char_literal rest n
unfolding char_literal_loop scan
char-Lands zero n pre rest h k = absurd (omega arith)
char-Lands (suc f) n pre [] h k = land_end n pre char_literal (ground (arith, read_here pre []))
char-Lands (suc f) n pre (c ∷ []) h k = elim (Move-cases (char_move c [])) [
  | inl e ↦
      advance_one pre char_literal code c space [] (char_closes f pre c [] e) (ground arith)
        (land_here n (pre ▸ space) [] (omega arith))
  | inr (inl e) ↦ absurd (ground arith)
  | inr (inr e) ↦
      advance_one pre char_literal char_literal c (blank c) [] (char_goes_on f pre c [] e)
        (ground arith) (char-Lands f n (pre ▸ blank c) [] (omega arith) (omega arith))
]
char-Lands (suc f) n pre (c ∷ d ∷ r) h k = elim (Move-cases (char_move c (d ∷ r))) [
  | inl e ↦
      advance_one pre char_literal code c space (d ∷ r) (char_closes f pre c (d ∷ r) e)
        (ground arith) (land_here n (pre ▸ space) (d ∷ r) (omega arith))
  | inr (inl e) ↦
      advance_two pre char_literal char_literal c d r (char_pair f pre c d r e) (ground arith)
        (char-Lands f n (pre ▸ space ▸ space) r (omega arith) (omega arith))
  | inr (inr e) ↦
      advance_one pre char_literal char_literal c (blank c) (d ∷ r) (char_goes_on f pre c (d ∷ r) e)
        (ground arith) (char-Lands f n (pre ▸ blank c) (d ∷ r) (omega arith) (omega arith))
]
