-- ===== src/Prelude/Pigeonhole.antt =====
-- A list that holds as many different elements as it is long holds none twice.
use Prim.Native.Nat.{suc, ◌≤◌}
use mathlib.Core.Path.{◌≡◌, refl, sym, subst}
use mathlib.Core.Logic.{inl, inr}
use mathlib.Core.Bool.{true, false, ◌||◌}
use mathlib.Core.List.{List, [], ◌∷◌}
use native.Mathlib.Omega.{arith}
use csharp_llm_benchmark.Prelude.Tests.{Eq, ◌==◌, if◌then◌else◌, Bool-cases}
use csharp_llm_benchmark.Prelude.Lists.{length, mem, IsDistinct}

module _ {ℓ} {A : Type ℓ} ⦃e : Eq A⦄ where
  -- The list without the first `x`.
  abbrev erase : A → List A → List A
  erase x [] = []
  erase x (k ∷ ks) = let rest = erase x ks in if k == x then ks else k ∷ rest

  length-erase : (x : A) (ks : List A) → mem x ks ≡ true → suc (length (erase x ks)) ≡ length ks
  length-erase x [] there = absurd (cc)
  length-erase x (k ∷ ks) there = elim (Bool-cases (k == x)) [
    | inl here ↦ rw (here) refl
    | inr other ↦
        let ih = length-erase x ks (ground (arith, there, other)) in rw (other) (omega (arith, ih))
  ]

  mem-erase : (x y : A) (ks : List A) → mem y (erase x ks) ≡ true → mem y ks ≡ true
  mem-erase x y [] there = there
  mem-erase x y (k ∷ ks) there = elim (Bool-cases (k == x)) [
    | inl here ↦ let t : mem y ks ≡ true = (rw here at there) in ground (arith, t)
    | inr other ↦
        let t : (k == y || mem y (erase x ks)) ≡ true = (rw other at there) in
        ground (arith, t, mem-erase x y ks)
  ]

  not_mem-erase : (x y : A) (ks : List A) → mem y ks ≡ false → mem y (erase x ks) ≡ false
  not_mem-erase x y ks out = elim (Bool-cases (mem y (erase x ks))) [
    | inr h ↦ h
    | inl h ↦ absurd (ground (arith, mem-erase x y ks h, out))
  ]

  erase-IsDistinct : (x : A) (ks : List A) → IsDistinct ks → IsDistinct (erase x ks)
  erase-IsDistinct x [] d = tt
  erase-IsDistinct x (k ∷ ks) (new, d) = elim (Bool-cases (k == x)) [
    | inl here ↦ rw here d
    | inr other ↦ rw other (not_mem-erase x k ks new, erase-IsDistinct x ks d)
  ]

  erased : (x : A) (ks : List A) → IsDistinct ks → mem x (erase x ks) ≡ false
  erased x [] d = refl
  erased x (k ∷ ks) (new, d) = elim (Bool-cases (k == x)) [
    | inl here ↦ rw here (subst (λ z. mem z ks ≡ false) ((e.beq_iff k x).0 here) new)
    | inr other ↦ let ih = erased x ks d in rw other (ground (arith, ih, other))
  ]

  abbrev pub IsPart : List A → List A → Type ℓ
  IsPart ks xs = (y : A) → mem y ks ≡ true → mem y xs ≡ true

  without : (x : A) (ks xs : List A) → IsPart ks (x ∷ xs) → mem x ks ≡ false → IsPart ks xs
  without x ks xs part out y there = elim (Bool-cases (x == y)) [
    | inr other ↦ ground (arith, part y there, other)
    | inl here ↦
        let t : mem x ks ≡ true =
          subst (λ z. mem z ks ≡ true) (sym ((e.beq_iff x y).0 here)) there in
        absurd (ground (arith, t, out))
  ]

  IsPart-erase :
      (x : A) (ks xs : List A) → IsDistinct ks → IsPart ks (x ∷ xs) → IsPart (erase x ks) xs
  IsPart-erase x ks xs d part =
      without x (erase x ks) xs (λ y there. part y (mem-erase x y ks there)) (erased x ks d)

  pub length_part : (xs ks : List A) → IsDistinct ks → IsPart ks xs → length ks ≤ length xs
  length_part [] [] d part = omega arith
  length_part [] (k ∷ ks) d part =
      let t : false ≡ true = part k (ground (arith, (e.beq_iff k k).1 refl)) in absurd (cc)
  length_part (x ∷ xs) ks d part = elim (Bool-cases (mem x ks)) [
    | inl there ↦ omega (
      arith,
      length-erase x ks there,
      length_part xs (erase x ks) (erase-IsDistinct x ks d) (IsPart-erase x ks xs d part),
    )
    | inr out ↦ omega (arith, length_part xs ks d (without x ks xs part out))
  ]

  pub part-IsDistinct :
      (xs ks : List A) → IsDistinct ks → IsPart ks xs → length xs ≡ length ks → IsDistinct xs
  part-IsDistinct [] ks d part same = tt
  part-IsDistinct (x ∷ xs) ks d part same = elim (Bool-cases (mem x ks)) [
    | inr out ↦
        let short : length ks ≤ length xs = length_part xs ks d (without x ks xs part out) in
        absurd (omega arith)
    | inl there ↦ elim (Bool-cases (mem x xs)) [
      | inl twice ↦
          let short : length ks ≤ length xs =
            length_part xs ks d (λ y t. again y twice (part y t)) in
          absurd (omega arith)
      | inr new ↦ (
        new,
        part-IsDistinct xs (erase x ks) (erase-IsDistinct x ks d) (IsPart-erase x ks xs d part)
            (omega (arith, length-erase x ks there)),
      )
    ]
  ]
    where
      again : (y : A) → mem x xs ≡ true → (x == y || mem y xs) ≡ true → mem y xs ≡ true
      again y twice t = elim (Bool-cases (x == y)) [
        | inr other ↦ ground (arith, t, other)
        | inl here ↦ subst (λ z. mem z xs ≡ true) ((e.beq_iff x y).0 here) twice
      ]
