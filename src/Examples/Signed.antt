-- ===== src/Examples/Signed.antt =====
-- Numbers with a sign, and the witness on them.
use csharp_llm_benchmark.Prelude.{
  ℕ, zero, suc, String, ◌+◌, ◌-◌, ◌*◌, ◌/◌, ◌≡◌, refl, some, List, [], ◌∷◌, arith, Bool, true,
  false, not, ◌==◌, nat_eq, leb, ltb, if◌then◌else◌,
}
use csharp_llm_benchmark.Prelude.Int.{ℤ, pos, negsuc, int_eq}
use csharp_llm_benchmark.Prelude.Numbers.{Numbers}
use csharp_llm_benchmark.Prelude.Order.{ComparisonLaws, IsFirstMax}
use csharp_llm_benchmark.Discovery.{TemperatureRun, select_best_temperature_run}
use csharp_llm_benchmark.Discovery.Best.{NegLaws, is_preferred, select_best_first}

-- `a` if the sign is none, and -`a` if there is one.
abbrev signed : Bool → ℕ → ℤ
signed false a = pos a
signed true zero = pos zero
signed true (suc a) = negsuc a

abbrev is_negative : ℤ → Bool
is_negative (pos a) = false
is_negative (negsuc a) = true

abbrev magnitude : ℤ → ℕ
magnitude (pos a) = a
magnitude (negsuc a) = a + 1

abbrev difference : ℕ → ℕ → ℤ
difference a b = if leb b a then pos (a - b) else signed true (b - a)

abbrev int_add : ℤ → ℤ → ℤ
int_add (pos a) (pos b) = pos (a + b)
int_add (pos a) (negsuc b) = difference a (b + 1)
int_add (negsuc a) (pos b) = difference b (a + 1)
int_add (negsuc a) (negsuc b) = negsuc (a + b + 1)

abbrev int_neg : ℤ → ℤ
int_neg a = signed (not (is_negative a)) (magnitude a)

abbrev is_opposite : ℤ → ℤ → Bool
is_opposite a b = if is_negative a then not (is_negative b) else is_negative b

abbrev int_lt : ℤ → ℤ → Bool
int_lt (pos a) (pos b) = ltb a b
int_lt (pos a) (negsuc b) = false
int_lt (negsuc a) (pos b) = true
int_lt (negsuc a) (negsuc b) = ltb b a

abbrev int_numbers : Numbers ℤ
int_numbers = record {
  of_ℕ = pos;
  add = int_add;
  mul = λ a b. signed (is_opposite a b) (magnitude a * magnitude b);
  div = λ a b. signed (is_opposite a b) (magnitude a / magnitude b);
  neg = int_neg;
  le = λ a b. not (int_lt b a);
  lt = int_lt;
  same = λ a b. a == b;
  finite = λ _. true;
  round = λ a. a;
}

int_comparison_laws : ComparisonLaws int_numbers
int_comparison_laws = record {
  same_sym = λ a b p q h. ground arith;
  same_trans = λ a b c p q r h k. ground arith;
  same_not_lt = λ a b p q h. ground arith;
  lt_total = λ a b p q h k. ground arith;
  lt_asym = λ a b p q h. ground arith;
  not_lt_trans = λ a b c p q r h k. ground arith;
}

int_neg_laws : NegLaws int_numbers
int_neg_laws = record { lt_neg = lt_neg; same_neg = same_neg }
  where
    lt_neg : (a b : ℤ) → int_lt (int_neg a) (int_neg b) ≡ int_lt b a
    lt_neg (pos zero) (pos zero) = refl
    lt_neg (pos zero) (pos (suc b)) = ground arith
    lt_neg (pos (suc a)) (pos zero) = ground arith
    lt_neg (pos (suc a)) (pos (suc b)) = ground arith
    lt_neg (pos zero) (negsuc b) = ground arith
    lt_neg (pos (suc a)) (negsuc b) = ground arith
    lt_neg (negsuc a) (pos zero) = ground arith
    lt_neg (negsuc a) (pos (suc b)) = ground arith
    lt_neg (negsuc a) (negsuc b) = ground arith

    same_neg : (a b : ℤ) → (int_neg a == int_neg b) ≡ (a == b)
    same_neg (pos zero) (pos zero) = refl
    same_neg (pos zero) (pos (suc b)) = ground arith
    same_neg (pos (suc a)) (pos zero) = ground arith
    same_neg (pos (suc a)) (pos (suc b)) = ground arith
    same_neg (pos zero) (negsuc b) = ground arith
    same_neg (pos (suc a)) (negsuc b) = refl
    same_neg (negsuc a) (pos zero) = ground arith
    same_neg (negsuc a) (pos (suc b)) = refl
    same_neg (negsuc a) (negsuc b) = ground arith

abbrev run_of : ℕ → ℕ → TemperatureRun ℤ String
run_of temperature earned = record {
  temperature = pos temperature;
  score = record {
    earned_points = pos earned;
    available_points = pos 10;
    final_score = pos (earned * 10);
    task_scores = [];
  };
  task_scores = [];
}

-- The last two differ in their temperature only.
abbrev three_runs : List (TemperatureRun ℤ String)
three_runs = run_of 0 3 ∷ run_of 2 7 ∷ run_of 1 7 ∷ []

selects_cooler : select_best_temperature_run int_numbers three_runs ≡ some (run_of 1 7)
unfolding select_best_temperature_run
selects_cooler = refl

select_best_first_example :
    IsFirstMax (is_preferred int_numbers int_comparison_laws) three_runs (run_of 1 7)
select_best_first_example =
    select_best_first int_numbers int_comparison_laws int_neg_laws three_runs (run_of 1 7)
      ((refl, refl, refl), ((refl, refl, refl), ((refl, refl, refl), tt))) selects_cooler
