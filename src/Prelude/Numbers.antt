-- ===== src/Prelude/Numbers.antt =====
-- The floating-point numbers of the program: an interface of the operations that it uses, and the
-- laws of IEEE arithmetic that theorems name. The laws hold with rounding and with infinities; a
-- bound by `le` says that no NaN is meant, since a comparison with one is false.
use Prim.Native.Nat.{ℕ, ◌+◌, ◌*◌, ◌/◌, ◌≤◌}
use native.Mathlib.Nat.{div-le_of_le-mul}
use mathlib.Core.Bool.{Bool, true, false}
use mathlib.Core.Path.{◌≡◌, refl}
use mathlib.Core.List.{List, [], ◌∷◌}
use native.Mathlib.Omega.{arith}
use csharp_llm_benchmark.Prelude.Tests.{leb, ltb, ◌==◌, nat_eq}

pub record Numbers (N : Type 0) : Type 0 where
  pub of_ℕ : ℕ → N
  pub add : N → N → N
  pub mul : N → N → N
  pub div : N → N → N
  pub neg : N → N
  -- `a <= b`, `a < b`, `a == b`, `math.isfinite`
  pub le : N → N → Bool
  pub lt : N → N → Bool
  pub same : N → N → Bool
  pub finite : N → Bool
  -- `round(x, 2)`
  pub round : N → N

module _ {N : Type 0} (num : Numbers N) where
  -- `sum`, which adds from the left.
  abbrev pub sum_from : N → List N → N
  sum_from acc [] = acc
  sum_from acc (x ∷ xs) = sum_from (num.add acc x) xs

  abbrev pub sum : List N → N
  sum xs = sum_from (num.of_ℕ 0) xs

  pub record OrderLaws : Type 0 where
    pub zero_le : num.le (num.of_ℕ 0) (num.of_ℕ 0) ≡ true
    pub le_refl : (a : N) → num.le (num.of_ℕ 0) a ≡ true → num.le a a ≡ true
    pub le_trans : (a b c : N) → num.le a b ≡ true → num.le b c ≡ true → num.le a c ≡ true
    pub add_le_add :
        (a b w : N)
        → num.le (num.of_ℕ 0) a ≡ true
        → num.le a b ≡ true
        → num.le (num.of_ℕ 0) w ≡ true
        → num.le (num.add a w) (num.add b w) ≡ true
    pub le-add :
        (a w : N)
        → num.le (num.of_ℕ 0) a ≡ true
        → num.le (num.of_ℕ 0) w ≡ true
        → num.le a (num.add a w) ≡ true
    pub add_comm :
        (a b : N)
        → num.le (num.of_ℕ 0) a ≡ true
        → num.le (num.of_ℕ 0) b ≡ true
        → num.add a b ≡ num.add b a
    pub le_of_not-lt :
        (a b : N)
        → num.finite a ≡ true
        → num.finite b ≡ true
        → num.lt a b ≡ false
        → num.le b a ≡ true
    pub finite_zero : num.finite (num.of_ℕ 0) ≡ true
    pub le_of_same : (a b : N) → num.same a b ≡ true → num.le a b ≡ true

  pub record RatioLaws : Type 0 where
    pub zero_le_one : num.le (num.of_ℕ 0) (num.of_ℕ 1) ≡ true
    pub finite_of_le :
        (a b : N)
        → num.le (num.of_ℕ 0) a ≡ true
        → num.le a b ≡ true
        → num.finite b ≡ true
        → num.finite a ≡ true
    pub div_bounds :
        (a b : N)
        → num.le (num.of_ℕ 0) a ≡ true
        → num.le a b ≡ true
        → num.finite b ≡ true
        → num.same b (num.of_ℕ 0) ≡ false
        → (num.le (num.of_ℕ 0) (num.div a b) ≡ true) × (num.le (num.div a b) (num.of_ℕ 1) ≡ true)
    pub mul_bounds :
        (a b : N)
        → num.le (num.of_ℕ 0) a ≡ true
        → num.finite a ≡ true
        → num.le (num.of_ℕ 0) b ≡ true
        → num.le b (num.of_ℕ 1) ≡ true
        → (num.le (num.of_ℕ 0) (num.mul a b) ≡ true) × (num.le (num.mul a b) a ≡ true)
    pub div_self :
        (a : N)
        → num.le (num.of_ℕ 0) a ≡ true
        → num.finite a ≡ true
        → num.same a (num.of_ℕ 0) ≡ false
        → num.div a a ≡ num.of_ℕ 1
    pub percent_bounds :
        (a : N)
        → num.le (num.of_ℕ 0) a ≡ true
        → num.le a (num.of_ℕ 1) ≡ true
        → (num.le (num.of_ℕ 0) (num.mul a (num.of_ℕ 100)) ≡ true)
          × (num.le (num.mul a (num.of_ℕ 100)) (num.of_ℕ 100) ≡ true)
    pub round_bounds :
        (a : N)
        → num.le (num.of_ℕ 0) a ≡ true
        → num.le a (num.of_ℕ 100) ≡ true
        → (num.le (num.of_ℕ 0) (num.round a) ≡ true) × (num.le (num.round a) (num.of_ℕ 100) ≡ true)
    pub mul_one : (a : N) → num.le (num.of_ℕ 0) a ≡ true → num.mul a (num.of_ℕ 1) ≡ a

-- Whole numbers, at which the laws can be seen to hold.
abbrev pub nat_numbers : Numbers ℕ
nat_numbers = record {
  of_ℕ = λ n. n;
  add = λ a b. a + b;
  mul = λ a b. a * b;
  div = λ a b. a / b;
  neg = λ a. a;
  le = leb;
  lt = ltb;
  same = λ a b. a == b;
  finite = λ _. true;
  round = λ a. a;
}

pub nat_order_laws : OrderLaws nat_numbers
nat_order_laws = record {
  zero_le = refl;
  le_refl = λ a h. ground arith;
  le_trans = λ a b c h k. ground arith;
  add_le_add = λ a b w h k l. ground arith;
  le-add = λ a w h k. ground arith;
  add_comm = λ a b h k. omega arith;
  le_of_not-lt = λ a b h k l. ground arith;
  finite_zero = refl;
  le_of_same = λ a b h. ground arith;
}

quotient_bound : (a b : ℕ) → leb a b ≡ true → leb (a / b) 1 ≡ true
quotient_bound a b h = let le : a / b ≤ 1 = div-le_of_le-mul b (ground arith) in ground arith

pub nat_ratio_laws : RatioLaws nat_numbers
nat_ratio_laws = record {
  zero_le_one = refl;
  finite_of_le = λ a b h k l. refl;
  div_bounds = λ a b h k l n. (ground arith, quotient_bound a b k);
  mul_bounds = λ a b h k l n. (ground arith, grind arith);
  div_self = λ a h k l. grind arith;
  percent_bounds = λ a h k. (ground arith, ground arith);
  round_bounds = λ a h k. (h, k);
  mul_one = λ a h. omega arith;
}
