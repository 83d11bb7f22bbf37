-- ===== src/Source/Shape.antt =====
-- What stripping keeps of a text: its length, and each character that it does not blank.
use csharp_llm_benchmark.Prelude.{
  ℕ, zero, suc, ◌≡◌, refl, ap, ◌⊎◌, inr, some, List, [], ◌∷◌, arith, nat_eq, length,
}
use csharp_llm_benchmark.Source.Strip.{strip_csharp_comments_and_literals, space}
use csharp_llm_benchmark.Source.Scan.{Mode, code, scan, emit}
use csharp_llm_benchmark.Source.Refine.{strip-scan}

length-scan : (m : Mode) (text : List ℕ) → length (scan m text) ≡ length text
unfolding scan
length-scan m [] = refl
length-scan m (c ∷ r) = ap suc (length-scan (emit m c r).1 r)

emit_keeps : (m : Mode) (c : ℕ) (r : List ℕ) → ((emit m c r).0 ≡ c) ⊎ ((emit m c r).0 ≡ space)
emit_keeps code c r = ground arith
emit_keeps (Mode.skip zero m) c r = inr refl
emit_keeps (Mode.skip (suc zero) m) c r = inr refl
emit_keeps (Mode.skip (suc (suc n)) m) c r = inr refl
emit_keeps _ c r = ground arith

-- At every index the character is the one of the text, or a space that replaces it.
abbrev pub Blanks : List ℕ → List ℕ → Type 0
Blanks [] [] = Unit
Blanks (d ∷ out) (c ∷ text) = ((d ≡ c) ⊎ (d ≡ space)) × Blanks out text
Blanks _ _ = ⊥

scan-Blanks : (m : Mode) (text : List ℕ) → Blanks (scan m text) text
unfolding scan
scan-Blanks m [] = tt
scan-Blanks m (c ∷ r) = (emit_keeps m c r, scan-Blanks (emit m c r).1 r)

-- For every source text, stripping comments and literals returns a text in which each character is
-- the original one or a space, so that no index moves and none is out of range.
pub strip-Blanks :
    (text : List ℕ)
    → (out : List ℕ) × (strip_csharp_comments_and_literals text ≡ some out)
      × Blanks out text
      × (length out ≡ length text)
strip-Blanks text = (scan code text, strip-scan text, scan-Blanks code text, length-scan code text)
