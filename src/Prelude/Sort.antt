-- ===== src/Prelude/Sort.antt =====
-- Python's `sorted` with a strict order, which is stable, and `set`.
use mathlib.Core.Path.{◌≡◌, refl, ◌∙◌}
use mathlib.Core.Bool.{Bool, true, false, ◌||◌}
use mathlib.Core.List.{List, [], ◌∷◌}
use native.Mathlib.Omega.{arith}
use csharp_llm_benchmark.Prelude.Tests.{Eq, ◌==◌, if◌then◌else◌, Bool-cases}
use mathlib.Core.Logic.{inl, inr}
use csharp_llm_benchmark.Prelude.Lists.{All, mem, IsDistinct, differ_sym}

module _ {ℓ} {A : Type ℓ} (before : A → A → Bool) where
  abbrev pub insert : A → List A → List A
  insert x [] = x ∷ []
  insert x (y ∷ ys) = let rest = insert x ys in if before y x then y ∷ rest else x ∷ y ∷ ys

  abbrev pub sort : List A → List A
  sort [] = []
  sort (x ∷ xs) = insert x (sort xs)

  module _ (P : A → Type 0) where
    All-insert : (x : A) (ys : List A) → P x → All P ys → All P (insert x ys)
    All-insert x [] p h = (p, tt)
    All-insert x (y ∷ ys) p h = go (before y x) (All-insert x ys p h.1)
      where
        go : (c : Bool) → All P (insert x ys) → All P (if c then y ∷ insert x ys else x ∷ y ∷ ys)
        go true rest = (h.0, rest)
        go false rest = (p, h)

    pub All-sort : (xs : List A) → All P xs → All P (sort xs)
    All-sort [] h = tt
    All-sort (x ∷ xs) h = All-insert x (sort xs) h.0 (All-sort xs h.1)

  module _ ⦃e : Eq A⦄ where
    mem-insert : (a x : A) (ys : List A) → mem a (insert x ys) ≡ (x == a || mem a ys)
    mem-insert a x [] = refl
    mem-insert a x (y ∷ ys) = go (before y x) (mem-insert a x ys)
      where
        go :
            (c : Bool)
            → mem a (insert x ys) ≡ (x == a || mem a ys)
            → mem a (if c then y ∷ insert x ys else x ∷ y ∷ ys) ≡ (x == a || (y == a || mem a ys))
        go true ih = ground (arith, ih)
        go false ih = refl

    pub mem-sort : (a : A) (xs : List A) → mem a (sort xs) ≡ mem a xs
    mem-sort a [] = refl
    mem-sort a (x ∷ xs) = ground (arith, mem-insert a x (sort xs), mem-sort a xs)

    IsDistinct-insert :
        (x : A) (ys : List A) → mem x ys ≡ false → IsDistinct ys → IsDistinct (insert x ys)
    IsDistinct-insert x [] new d = (refl, tt)
    IsDistinct-insert x (y ∷ ys) new d =
        go (before y x) (IsDistinct-insert x ys (ground (arith, new)) d.1)
      where
        go :
            (c : Bool)
            → IsDistinct (insert x ys)
            → IsDistinct (if c then y ∷ insert x ys else x ∷ y ∷ ys)
        go true rest =
            (mem-insert y x ys ∙ ground (arith, differ_sym y x (ground (arith, new)), d.0), rest)
        go false rest = (new, d)

    pub IsDistinct-sort : (xs : List A) → IsDistinct xs → IsDistinct (sort xs)
    IsDistinct-sort [] d = tt
    IsDistinct-sort (x ∷ xs) d =
        IsDistinct-insert x (sort xs) (mem-sort x xs ∙ d.0) (IsDistinct-sort xs d.1)

module _ {ℓ} {A : Type ℓ} ⦃e : Eq A⦄ where
  -- `set(xs)`, in some order.
  abbrev pub to_set : List A → List A
  to_set [] = []
  to_set (x ∷ xs) = let rest = to_set xs in if mem x rest then rest else x ∷ rest

  pub mem-to_set : (a : A) (xs : List A) → mem a (to_set xs) ≡ mem a xs
  mem-to_set a [] = refl
  mem-to_set a (x ∷ xs) = go (mem x (to_set xs)) refl (mem-to_set a xs)
    where
      go :
          (c : Bool)
          → mem x (to_set xs) ≡ c
          → mem a (to_set xs) ≡ mem a xs
          → mem a (if c then to_set xs else x ∷ to_set xs) ≡ (x == a || mem a xs)
      go true there ih = elim (Bool-cases (x == a)) [
        | inr h ↦ ground (arith, ih, h)
        | inl h ↦
            let same : x ≡ a = (e.beq_iff x a).0 h in
            let in_rest : mem a (to_set xs) ≡ true = (rw same at there) in
            ground (arith, in_rest, h)
      ]
      go false there ih = ground (arith, ih)

  pub to_set-IsDistinct : (xs : List A) → IsDistinct (to_set xs)
  to_set-IsDistinct [] = tt
  to_set-IsDistinct (x ∷ xs) = go (mem x (to_set xs)) refl (to_set-IsDistinct xs)
    where
      go :
          (c : Bool)
          → mem x (to_set xs) ≡ c
          → IsDistinct (to_set xs)
          → IsDistinct (if c then to_set xs else x ∷ to_set xs)
      go true there ih = ih
      go false there ih = (there, ih)
