-- ===== src/Prelude/Text.antt =====
-- Texts as lists of code points, where the program takes them apart.
use Prim.Native.Char.{code}
use Prim.Native.Nat.{ℕ}
use Prim.Native.String.{String}
use mathlib.Core.Path.{◌≡◌, refl}
use mathlib.Core.Logic.{◌↔◌}
use mathlib.Core.Bool.{Bool, true, false, ◌&&◌, ◌||◌}
use mathlib.Core.List.{List, [], ◌∷◌}
use native.Mathlib.Omega.{arith}
use csharp_llm_benchmark.Prelude.Tests.{Eq, nat_eq, ◌==◌, if◌then◌else◌}

abbrev pub Text : Type 0
Text = List ℕ

abbrev pub codes : String → Text
codes String.[] = []
codes (String.◌∷◌ c s) = code c ∷ codes s

abbrev pub text_beq : Text → Text → Bool
text_beq [] [] = true
text_beq (c ∷ s) (d ∷ t) = c == d && text_beq s t
text_beq _ _ = false

pub text_beq_iff : (s t : Text) → (text_beq s t ≡ true) ↔ (s ≡ t)
text_beq_iff [] [] = (λ _. refl, λ _. refl)
text_beq_iff [] (d ∷ t) = (λ e. cc, λ e. cc)
text_beq_iff (c ∷ s) [] = (λ e. cc, λ e. cc)
text_beq_iff (c ∷ s) (d ∷ t) =
    (λ e. ground (arith, text_beq_iff s t), λ e. ground (arith, text_beq_iff s t))

instance abbrev pub text_eq : Eq Text
text_eq = record { beq = text_beq; beq_iff = text_beq_iff }

abbrev pub starts_with : Text → Text → Bool
starts_with [] t = true
starts_with (c ∷ s) [] = false
starts_with (c ∷ s) (d ∷ t) = c == d && starts_with s t

abbrev pub ends_with : Text → Text → Bool
ends_with suffix [] = suffix == []
ends_with suffix (c ∷ t) = suffix == c ∷ t || ends_with suffix t

-- `t.rstrip(c)` for one character
abbrev pub rstrip : ℕ → Text → Text
rstrip c [] = []
rstrip c (d ∷ t) = let rest = rstrip c t in if rest == [] && d == c then [] else d ∷ rest

-- `t.split(c)` for one character
abbrev pub split : ℕ → Text → List Text
split c [] = [] ∷ []
split c (d ∷ t) = let rest = split c t in if d == c then [] ∷ rest else prepend d rest
  where
    prepend : ℕ → List Text → List Text
    prepend d [] = (d ∷ []) ∷ []
    prepend d (word ∷ words) = (d ∷ word) ∷ words
