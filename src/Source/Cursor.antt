-- ===== src/Source/Cursor.antt =====
-- A cursor splits the characters into those before it and those from it on: reads and writes at it.
use native.Mathlib.Numerals.{add-one}
use csharp_llm_benchmark.Prelude.{
  ℕ, suc, ◌+◌, ◌≡◌, refl, ap, some, List, [], ◌∷◌, ◌++◌, arith, length, length-append, get_elem?,
  set?,
}
use csharp_llm_benchmark.Source.Scan.{peek, peek_second}

infixl 66 ◌▸◌
abbrev pub ◌▸◌ : List ℕ → ℕ → List ℕ
pre ▸ c = pre ++ c ∷ []

pub snoc_lem : (pre : List ℕ) (c : ℕ) (r : List ℕ) → pre ++ c ∷ r ≡ (pre ▸ c) ++ r
snoc_lem [] c r = refl
snoc_lem (x ∷ pre) c r = ap (λ (l : List ℕ). x ∷ l) (snoc_lem pre c r)

pub length-snoc : (pre : List ℕ) (c : ℕ) → length pre + 1 ≡ length (pre ▸ c)
length-snoc pre c = omega (arith, length-append pre (c ∷ []))

pub length-snoc_two : (pre : List ℕ) (c d : ℕ) → length pre + 2 ≡ length (pre ▸ c ▸ d)
length-snoc_two pre c d = omega (arith, length-snoc pre c, length-snoc (pre ▸ c) d)

pub read_here : (pre rest : List ℕ) → get_elem? (pre ++ rest) (length pre) ≡ peek rest
read_here [] [] = refl
read_here [] (c ∷ r) = refl
read_here (x ∷ pre) rest = read_here pre rest

read_second : (pre rest : List ℕ) → get_elem? (pre ++ rest) (suc (length pre)) ≡ peek_second rest
read_second [] [] = refl
read_second [] (c ∷ []) = refl
read_second [] (c ∷ d ∷ r) = refl
read_second (x ∷ pre) rest = read_second pre rest

pub read_next :
    (pre : List ℕ) (c : ℕ) (r : List ℕ) → get_elem? (pre ++ c ∷ r) (length pre + 1) ≡ peek r
read_next pre c r = rw add-one (read_second pre (c ∷ r))

pub read_third :
    (pre : List ℕ) (c : ℕ) (r : List ℕ) → get_elem? (pre ++ c ∷ r) (length pre + 2) ≡ peek_second r
read_third pre c r =
    let e : length pre + 2 ≡ suc (length (pre ▸ c)) = omega (arith, length-snoc pre c) in
    rw (snoc_lem pre c r, e) (read_second (pre ▸ c) r)

pub write_here :
    (pre : List ℕ) (c v : ℕ) (r : List ℕ)
    → set? (pre ++ c ∷ r) (length pre) v ≡ some ((pre ▸ v) ++ r)
write_here [] c v r = refl
write_here (x ∷ pre) c v r = rw (write_here pre c v r)
