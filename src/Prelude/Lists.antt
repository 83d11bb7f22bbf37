-- ===== src/Prelude/Lists.antt =====
-- Lists measured and indexed by native numbers, under the library's names, and Boolean searches.
use Prim.Native.Nat.{ℕ, zero, suc, ◌+◌}
use mathlib.Core.Path.{◌≡◌, refl, ap, sym, subst}
use mathlib.Core.Logic.{◌⊎◌, inl, inr}
use mathlib.Core.Bool.{Bool, true, false, ◌&&◌, ◌||◌}
use mathlib.Core.List.{List, [], ◌∷◌, ◌++◌}
use mathlib.Core.Option.{Option, none, some}
use native.Mathlib.Omega.{arith}
use csharp_llm_benchmark.Prelude.Tests.{Eq, ◌==◌, if◌then◌else◌, Bool-cases}

module _ {ℓ} {A : Type ℓ} where
  abbrev pub length : List A → ℕ
  length [] = 0
  length (x ∷ xs) = suc (length xs)

  -- `not xs`
  abbrev pub is_empty : List A → Bool
  is_empty [] = true
  is_empty (x ∷ xs) = false

  abbrev pub get_elem? : List A → ℕ → Option A
  get_elem? [] i = none
  get_elem? (x ∷ xs) zero = some x
  get_elem? (x ∷ xs) (suc i) = get_elem? xs i

  -- `xs[:n]`
  abbrev pub take : ℕ → List A → List A
  take zero xs = []
  take (suc n) [] = []
  take (suc n) (x ∷ xs) = x ∷ take n xs

  -- A write out of bounds is an error.
  abbrev pub set? : List A → ℕ → A → Option (List A)
  set? [] i v = none
  set? (x ∷ xs) zero v = some (v ∷ xs)
  set? (x ∷ xs) (suc i) v = elim (set? xs i v) [ none ↦ none | some ys ↦ some (x ∷ ys) ]

  pub get_elem?-set? :
      (xs ys : List A) (i : ℕ) (v : A) → set? xs i v ≡ some ys → get_elem? ys i ≡ some v
  get_elem?-set? [] ys i v h = absurd (cc)
  get_elem?-set? (x ∷ xs) ys zero v h = let e : v ∷ xs ≡ ys = ground arith in rw (← e) refl
  get_elem?-set? (x ∷ xs) ys (suc i) v h = go (set? xs i v) h (λ zs. get_elem?-set? xs zs i v)
    where
      go :
          (written : Option (List A))
          → elim written [ none ↦ none | some zs ↦ some (x ∷ zs) ] ≡ some ys
          → ((zs : List A) → written ≡ some zs → get_elem? zs i ≡ some v)
          → get_elem? ys (suc i) ≡ some v
      go none h ih = absurd (cc)
      go (some zs) h ih = let same : x ∷ zs ≡ ys = ground arith in rw (← same) (ih zs refl)

  pub set?-none : (xs : List A) (i : ℕ) (v : A) → set? xs i v ≡ none → get_elem? xs i ≡ none
  set?-none [] i v h = refl
  set?-none (x ∷ xs) zero v h = absurd (cc)
  set?-none (x ∷ xs) (suc i) v h = go (set? xs i v) h (set?-none xs i v)
    where
      go :
          (written : Option (List A))
          → elim written [ none ↦ none | some zs ↦ some (x ∷ zs) ] ≡ none
          → (written ≡ none → get_elem? xs i ≡ none)
          → get_elem? xs i ≡ none
      go none h ih = ih refl
      go (some zs) h ih = absurd (cc)

  -- After a write an element is the one written, at its index, or the one from before.
  pub set?_cases :
      (xs : List A) (i : ℕ) (v : A) (ys : List A)
      → set? xs i v ≡ some ys
      → (j : ℕ) → ((i ≡ j) × (get_elem? ys j ≡ some v)) ⊎ (get_elem? ys j ≡ get_elem? xs j)
  set?_cases [] i v ys h j = absurd (cc)
  set?_cases (x ∷ xs) zero v ys h zero =
      let same : v ∷ xs ≡ ys = ground arith in inl (refl, rw (← same) refl)
  set?_cases (x ∷ xs) zero v ys h (suc j) =
      let same : v ∷ xs ≡ ys = ground arith in inr (rw (← same) refl)
  set?_cases (x ∷ xs) (suc i) v ys h j = go (set? xs i v) (set?_cases xs i v) j h
    where
      go :
          (written : Option (List A))
          → ((zs : List A)
              → written ≡ some zs
              → (k : ℕ) → ((i ≡ k) × (get_elem? zs k ≡ some v)) ⊎ (get_elem? zs k ≡ get_elem? xs k))
          → (j : ℕ) → elim written [ none ↦ none | some zs ↦ some (x ∷ zs) ] ≡ some ys
          → ((suc i ≡ j) × (get_elem? ys j ≡ some v)) ⊎ (get_elem? ys j ≡ get_elem? (x ∷ xs) j)
      go none ih j h = absurd (cc)
      go (some zs) ih zero h = let same : x ∷ zs ≡ ys = ground arith in inr (rw (← same) refl)
      go (some zs) ih (suc k) h =
          let same : x ∷ zs ≡ ys = ground arith in
          elim (ih zs refl k) [
            | inl (e, there) ↦ inl (ap suc e, rw (← same) there)
            | inr kept ↦ inr (rw (← same) kept)
          ]

  pub length-append : (xs ys : List A) → length (xs ++ ys) ≡ length xs + length ys
  length-append [] ys = omega arith
  length-append (x ∷ xs) ys = omega (arith, length-append xs ys)

  -- The elements that a Boolean test keeps.
  abbrev pub select : (A → Bool) → List A → List A
  select p [] = []
  select p (x ∷ xs) = let rest = select p xs in if p x then x ∷ rest else rest

  abbrev pub any : (A → Bool) → List A → Bool
  any p [] = false
  any p (x ∷ xs) = p x || any p xs

  abbrev pub all : (A → Bool) → List A → Bool
  all p [] = true
  all p (x ∷ xs) = p x && all p xs

  abbrev pub All {κ} : (A → Type κ) → List A → Type κ
  All P [] = Unit
  All P (x ∷ xs) = P x × All P xs

  abbrev pub Any : (A → Type 0) → List A → Type 0
  Any P [] = ⊥
  Any P (x ∷ xs) = P x ⊎ Any P xs

  pub Any-append_left : (P : A → Type 0) (xs ys : List A) → Any P xs → Any P (xs ++ ys)
  Any-append_left P [] ys h = elim h [ ]
  Any-append_left P (x ∷ xs) ys (inl h) = inl h
  Any-append_left P (x ∷ xs) ys (inr h) = inr (Any-append_left P xs ys h)

  pub Any-append_right : (P : A → Type 0) (xs ys : List A) → Any P ys → Any P (xs ++ ys)
  Any-append_right P [] ys h = h
  Any-append_right P (x ∷ xs) ys h = inr (Any-append_right P xs ys h)

  pub All-append {κ} : (P : A → Type κ) (xs ys : List A) → All P xs → All P ys → All P (xs ++ ys)
  All-append P [] ys hx hy = hy
  All-append P (x ∷ xs) ys hx hy = (hx.0, All-append P xs ys hx.1 hy)

  pub All-both :
      (P Q R : A → Type 0) (xs : List A)
      → ((x : A) → P x → Q x → R x)
      → All P xs
      → All Q xs
      → All R xs
  All-both P Q R [] f p q = tt
  All-both P Q R (x ∷ xs) f p q = (f x p.0 q.0, All-both P Q R xs f p.1 q.1)

module _ {ℓ} {A : Type ℓ} ⦃e : Eq A⦄ where
  -- `x in xs`
  abbrev pub mem : A → List A → Bool
  mem a [] = false
  mem a (x ∷ xs) = x == a || mem a xs

  -- What holds of every element of a list holds of all of them, and back.
  pub All-of_mem {κ} : (P : A → Type κ) (l : List A) → ((x : A) → mem x l ≡ true → P x) → All P l
  All-of_mem P [] h = tt
  All-of_mem P (x ∷ l) h =
      (h x (ground (arith, e.beq_iff x x)), All-of_mem P l (λ y m. h y (ground (arith, m))))

  pub mem_All {κ} : (P : A → Type κ) (l : List A) → All P l → (x : A) → mem x l ≡ true → P x
  mem_All P [] h x there = absurd (cc)
  mem_All P (y ∷ l) h x there = elim (Bool-cases (y == x)) [
    | inl here ↦ subst P ((e.beq_iff y x).0 here) h.0
    | inr other ↦ mem_All P l h.1 x (ground (arith, there, other))
  ]

  pub differ_sym : (x y : A) → (x == y) ≡ false → (y == x) ≡ false
  differ_sym x y other = elim (Bool-cases (y == x)) [
    | inr h ↦ h
    | inl h ↦
        let back : (x == y) ≡ true = (e.beq_iff x y).1 (sym ((e.beq_iff y x).0 h)) in
        absurd (ground (arith, other, back))
  ]

  pub mem-differs : (x y : A) (l : List A) → mem x l ≡ false → mem y l ≡ true → (y == x) ≡ false
  mem-differs x y l out there = elim (Bool-cases (y == x)) [
    | inr h ↦ h
    | inl h ↦
        let moved : mem x l ≡ true = subst (λ z. mem z l ≡ true) ((e.beq_iff y x).0 h) there in
        absurd (ground (arith, moved, out))
  ]

  -- No element twice.
  abbrev pub IsDistinct : List A → Type 0
  IsDistinct [] = Unit
  IsDistinct (x ∷ xs) = (mem x xs ≡ false) × IsDistinct xs
