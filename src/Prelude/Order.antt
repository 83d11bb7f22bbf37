-- ===== src/Prelude/Order.antt =====
-- Python's comparison of tuples of floating-point numbers, and `max` with a key.
use mathlib.Core.Bool.{Bool, true, false}
use mathlib.Core.Path.{◌≡◌, refl, sym}
use mathlib.Core.Logic.{inl, inr}
use mathlib.Core.List.{List, [], ◌∷◌, ◌++◌, append-nil, append_assoc}
use native.Mathlib.Omega.{arith}
use csharp_llm_benchmark.Prelude.Tests.{if◌then◌else◌, Bool-cases, nat_eq}
use csharp_llm_benchmark.Prelude.Lists.{All, All-append}
use csharp_llm_benchmark.Prelude.Numbers.{Numbers, nat_numbers}

module _ {N : Type 0} (num : Numbers N) where
  -- The first components that differ decide.
  abbrev pub tuple_lt : List N → List N → Bool
  tuple_lt [] [] = false
  tuple_lt [] (y ∷ ys) = true
  tuple_lt (x ∷ xs) [] = false
  tuple_lt (x ∷ xs) (y ∷ ys) =
      let rest = tuple_lt xs ys in if num.same x y then rest else num.lt x y

  -- No NaN, which is the one value that is not equal to itself.
  abbrev pub IsOrdered : N → Type 0
  IsOrdered x = num.same x x ≡ true

  pub record ComparisonLaws : Type 0 where
    pub same_sym : (a b : N) → IsOrdered a → IsOrdered b → num.same a b ≡ true → num.same b a ≡ true
    pub same_trans :
        (a b c : N)
        → IsOrdered a
        → IsOrdered b
        → IsOrdered c
        → num.same a b ≡ true
        → num.same b c ≡ true
        → num.same a c ≡ true
    pub same_not_lt :
        (a b : N) → IsOrdered a → IsOrdered b → num.same a b ≡ true → num.lt a b ≡ false
    pub lt_total :
        (a b : N)
        → IsOrdered a
        → IsOrdered b
        → num.same a b ≡ false
        → num.lt a b ≡ false
        → num.lt b a ≡ true
    pub lt_asym : (a b : N) → IsOrdered a → IsOrdered b → num.lt a b ≡ true → num.lt b a ≡ false
    pub not_lt_trans :
        (a b c : N)
        → IsOrdered a
        → IsOrdered b
        → IsOrdered c
        → num.lt a b ≡ false
        → num.lt b c ≡ false
        → num.lt a c ≡ false

  module _ (laws : ComparisonLaws) where
    pub tuple_lt_asym :
        (xs ys : List N)
        → All IsOrdered xs
        → All IsOrdered ys
        → tuple_lt xs ys ≡ true
        → tuple_lt ys xs ≡ false
    tuple_lt_asym [] [] hx hy h = refl
    tuple_lt_asym [] (y ∷ ys) hx hy h = refl
    tuple_lt_asym (x ∷ xs) [] hx hy h = absurd (ground arith)
    tuple_lt_asym (x ∷ xs) (y ∷ ys) hx hy h = ground (
      arith,
      tuple_lt_asym xs ys hx.1 hy.1,
      laws.same_sym x y hx.0 hy.0,
      laws.same_sym y x hy.0 hx.0,
      laws.lt_asym x y hx.0 hy.0,
    )

    pub not_tuple_lt_trans :
        (xs ys zs : List N)
        → All IsOrdered xs
        → All IsOrdered ys
        → All IsOrdered zs
        → tuple_lt xs ys ≡ false
        → tuple_lt ys zs ≡ false
        → tuple_lt xs zs ≡ false
    not_tuple_lt_trans xs [] [] hx hy hz h k = h
    not_tuple_lt_trans xs [] (z ∷ zs) hx hy hz h k = absurd (ground arith)
    not_tuple_lt_trans [] (y ∷ ys) zs hx hy hz h k = absurd (ground arith)
    not_tuple_lt_trans (x ∷ xs) (y ∷ ys) [] hx hy hz h k = refl
    not_tuple_lt_trans (x ∷ xs) (y ∷ ys) (z ∷ zs) hx hy hz h k = ground (
      arith,
      not_tuple_lt_trans xs ys zs hx.1 hy.1 hz.1,
      laws.same_sym x y hx.0 hy.0,
      laws.same_sym x z hx.0 hz.0,
      laws.same_sym y z hy.0 hz.0,
      laws.same_sym z y hz.0 hy.0,
      laws.same_trans x y z hx.0 hy.0 hz.0,
      laws.same_trans x z y hx.0 hz.0 hy.0,
      laws.same_trans y x z hy.0 hx.0 hz.0,
      laws.not_lt_trans x y z hx.0 hy.0 hz.0,
      laws.same_not_lt x y hx.0 hy.0,
      laws.same_not_lt y z hy.0 hz.0,
      laws.same_not_lt z x hz.0 hx.0,
      laws.lt_total x y hx.0 hy.0,
      laws.lt_total y z hy.0 hz.0,
      laws.not_lt_trans z x y hz.0 hx.0 hy.0,
      laws.lt_asym z y hz.0 hy.0,
      laws.lt_asym y x hy.0 hx.0,
    )

pub nat_comparison_laws : ComparisonLaws nat_numbers
nat_comparison_laws = record {
  same_sym = λ a b p q h. ground arith;
  same_trans = λ a b c p q r h k. ground arith;
  same_not_lt = λ a b p q h. ground arith;
  lt_total = λ a b p q h k. ground arith;
  lt_asym = λ a b p q h. ground arith;
  not_lt_trans = λ a b c p q r h k. ground arith;
}

-- `max(items, key)`: a later item replaces the best only if it is greater.
module _ {A : Type 0} (gt : A → A → Bool) where
  unfoldable pub max_from : A → List A → A
  max_from best [] = best
  max_from best (x ∷ xs) = max_from (if gt x best then x else best) xs

  -- `best` beats every item before it, and no item behind it beats `best`.
  pub record IsFirstMax (items : List A) (best : A) : Type 0 where
    pub before : List A
    pub after : List A
    pub split : items ≡ before ++ best ∷ after
    pub beats : All (λ x. gt best x ≡ true) before
    pub unbeaten : All (λ x. gt x best ≡ false) after

  pub record GreaterLaws (P : A → Type 0) : Type 0 where
    pub asym : (x y : A) → P x → P y → gt x y ≡ true → gt y x ≡ false
    pub not_trans : (x y z : A) → P x → P y → P z → gt x y ≡ false → gt y z ≡ false → gt x z ≡ false

  module _ {P : A → Type 0} (laws : GreaterLaws P) where
    beats_before :
        (x best : A) (l : List A)
        → P x
        → P best
        → All P l
        → gt x best ≡ true
        → All (λ y. gt best y ≡ true) l
        → All (λ y. gt x y ≡ true) l
    beats_before x best [] px pb pl h hl = tt
    beats_before x best (y ∷ l) px pb pl h hl = (
      ground (arith, laws.asym best y pb pl.0, laws.not_trans x y best px pl.0 pb),
      beats_before x best l px pb pl.1 h hl.1,
    )

    beats_mid :
        (x best : A) (l : List A)
        → P x
        → P best
        → All P l
        → gt x best ≡ true
        → All (λ y. gt y best ≡ false) l
        → All (λ y. gt x y ≡ true) l
    beats_mid x best [] px pb pl h hl = tt
    beats_mid x best (y ∷ l) px pb pl h hl =
        (ground (arith, laws.not_trans x y best px pl.0 pb), beats_mid x best l px pb pl.1 h hl.1)

    max_from_first :
        (before : List A) (best : A) (mid xs : List A)
        → All P before
        → P best
        → All P mid
        → All P xs
        → All (λ x. gt best x ≡ true) before
        → All (λ x. gt x best ≡ false) mid
        → IsFirstMax (before ++ (best ∷ (mid ++ xs))) (max_from best xs)
    unfolding max_from
    max_from_first before best mid [] pb p pm px hb hm = record {
      before = before;
      after = mid;
      split = rw append-nil;
      beats = hb;
      unbeaten = hm;
    }
    max_from_first before best mid (x ∷ xs) pb p pm px hb hm = elim (Bool-cases (gt x best)) [
      | inl e ↦
          rw (e, regroup before best mid x xs)
            (max_from_first (before ++ (best ∷ mid)) x [] xs (All-append _ before _ pb (p, pm)) px.0
              tt px.1
              (All-append _ before _ (beats_before x best before px.0 p pb e hb)
                (e, beats_mid x best mid px.0 p pm e hm))
              tt)
      | inr e ↦
          rw (e, ← append_assoc mid (x ∷ []) xs)
            (max_from_first before best (mid ++ (x ∷ [])) xs pb p (All-append _ mid _ pm (px.0, tt))
              px.1 hb (All-append _ mid _ hm (e, tt)))
    ]
      where
        regroup :
            (b : List A) (c : A) (m : List A) (y : A) (l : List A)
            → b ++ (c ∷ (m ++ (y ∷ l))) ≡ (b ++ (c ∷ m)) ++ (y ∷ l)
        regroup b c m y l = sym (append_assoc b (c ∷ m) (y ∷ l))

    -- `max` returns the first of the greatest items.
    pub max_first : (x : A) (xs : List A) → P x → All P xs → IsFirstMax (x ∷ xs) (max_from x xs)
    max_first x xs p px = max_from_first [] x [] xs tt p tt px tt tt
