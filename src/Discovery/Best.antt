-- ===== src/Discovery/Best.antt =====
-- The chosen run is the first of the best, and the report names the same temperature.
use csharp_llm_benchmark.Prelude.{
  ◌≡◌, refl, sym, ap, ◌∙◌, inl, inr, some, List, [], ◌∷◌, arith, Bool, true, false, All, Bool-cases,
  if◌then◌else◌,
}
use csharp_llm_benchmark.Prelude.Numbers.{Numbers}
use csharp_llm_benchmark.Prelude.Order.{
  tuple_lt_asym, not_tuple_lt_trans, ComparisonLaws, IsOrdered, max_from, max_first, IsFirstMax,
  GreaterLaws,
}
use csharp_llm_benchmark.Scorer.{percent}
use csharp_llm_benchmark.Discovery.{
  TemperatureRun, run_key, is_better, is_better_in_payload, select_best_temperature_run,
  payload_loop, payload_selected_temperature,
}

module _ {N : Type 0} (num : Numbers N) where
  -- Equal points, of which one may be a negative zero, have equal final scores.
  pub record ScaleLaw (available : N) : Type 0 where
    pub same_percent :
        (a b : N)
        → IsOrdered num (percent num available a)
        → num.same a b ≡ true
        → num.same (percent num available a) (percent num available b) ≡ true

  -- What negation does to comparisons, also of NaN.
  pub record NegLaws : Type 0 where
    pub lt_neg : (a b : N) → num.lt (num.neg a) (num.neg b) ≡ num.lt b a
    pub same_neg : (a b : N) → num.same (num.neg a) (num.neg b) ≡ num.same a b

module _ {N Meta : Type 0} (num : Numbers N) (laws : ComparisonLaws num) where
  -- No component of a run's key is NaN.
  abbrev pub HasOrderedKey : TemperatureRun N Meta → Type 0
  HasOrderedKey run = All (IsOrdered num) (run_key num run)

  better_laws : GreaterLaws (is_better num) HasOrderedKey
  better_laws = record {
    asym = λ x y px py h. tuple_lt_asym num laws (run_key num y) (run_key num x) py px h;
    not_trans = λ x y z px py pz h k.
        not_tuple_lt_trans num laws (run_key num z) (run_key num y) (run_key num x) pz py px k h;
  }

  -- More points, then a higher final score, then a lower temperature.
  abbrev pub is_preferred : TemperatureRun N Meta → TemperatureRun N Meta → Bool
  is_preferred a b =
      let cooler =
        if num.same b.temperature a.temperature
        then false
        else num.lt a.temperature b.temperature in
      let by_score =
        if num.same b.score.final_score a.score.final_score
        then cooler
        else num.lt b.score.final_score a.score.final_score in
      if num.same b.score.earned_points a.score.earned_points
      then by_score
      else num.lt b.score.earned_points a.score.earned_points

  -- A run without NaN.
  abbrev pub HasNumbers : TemperatureRun N Meta → Type 0
  HasNumbers run =
      IsOrdered num run.score.earned_points
      × IsOrdered num run.score.final_score
      × IsOrdered num run.temperature

  module _ (negative : NegLaws num) where
    better_preferred : (a b : TemperatureRun N Meta) → is_better num a b ≡ is_preferred a b
    better_preferred a b =
        rw
          (
            negative.lt_neg b.temperature a.temperature,
            negative.same_neg b.temperature a.temperature,
          )
          refl

    ordered_keys :
        (runs : List (TemperatureRun N Meta)) → All HasNumbers runs → All HasOrderedKey runs
    ordered_keys [] p = tt
    ordered_keys (run ∷ runs) ((points, final, temperature), p) = (
      (points, (final, (negative.same_neg run.temperature run.temperature ∙ temperature, tt))),
      ordered_keys runs p,
    )

    -- Where numbers other than NaN compare lawfully and negation turns the order around, the run
    -- selected from runs without NaN is one of them. Against each run before it, it has more points,
    -- or as many and a higher final score, or equal ones and a lower temperature; no run behind it
    -- is better in this way.
    pub select_best_first :
        (runs : List (TemperatureRun N Meta)) (best : TemperatureRun N Meta)
        → All HasNumbers runs
        → select_best_temperature_run num runs ≡ some best
        → IsFirstMax is_preferred runs best
    unfolding select_best_temperature_run
    select_best_first [] best p h = absurd (cc)
    select_best_first (run ∷ runs) best p h =
        let e : max_from (is_better num) run runs ≡ best = ground arith in
        let keys = ordered_keys (run ∷ runs) p in
        let order : is_better num ≡ is_preferred = λ i a b. better_preferred a b i in
        rw (← order, ← e) (max_first (is_better num) better_laws run runs keys.0 keys.1)

  -- The run scored its points on this scale.
  abbrev pub IsOnScale : N → TemperatureRun N Meta → Type 0
  IsOnScale available run =
      (run.score.final_score ≡ percent num available run.score.earned_points) × HasOrderedKey run

  module _ (available : N) (scale : ScaleLaw num available) where
    same_order :
        (x y : TemperatureRun N Meta)
        → IsOnScale available x
        → IsOnScale available y
        → is_better num x y ≡ is_better_in_payload num x y
    same_order x y px py =
        let ordered : IsOrdered num (percent num available y.score.earned_points) =
          rw (← py.0) py.1.1.0 in
        let final : num.same y.score.earned_points x.score.earned_points ≡ true
            → num.same y.score.final_score x.score.final_score ≡ true =
          λ e. rw (px.0, py.0) (scale.same_percent _ _ ordered e) in
        elim (Bool-cases (num.same y.score.earned_points x.score.earned_points)) [
          | inl e ↦ rw (e, final e)
          | inr e ↦ rw e
        ]

    same_loop :
        (best : TemperatureRun N Meta) (runs : List (TemperatureRun N Meta))
        → IsOnScale available best
        → All (IsOnScale available) runs
        → max_from (is_better num) best runs ≡ payload_loop num best runs
    unfolding max_from payload_loop
    same_loop best [] p ps = refl
    same_loop best (run ∷ runs) p ps = elim (Bool-cases (is_better_in_payload num run best)) [
      | inl e ↦ rw (same_order run best ps.0 p, e) (same_loop run runs ps.0 ps.1)
      | inr e ↦ rw (same_order run best ps.0 p, e) (same_loop best runs p ps.1)
    ]

    -- For runs whose final scores are their points on one scale, as for runs of the same tasks, the
    -- temperature that the report names is that of the selected run.
    pub payload_agrees :
        (runs : List (TemperatureRun N Meta)) (best : TemperatureRun N Meta)
        → All (IsOnScale available) runs
        → select_best_temperature_run num runs ≡ some best
        → payload_selected_temperature num runs ≡ some best.temperature
    unfolding select_best_temperature_run payload_selected_temperature
    payload_agrees [] best p h = absurd (cc)
    payload_agrees (run ∷ runs) best p h =
        let e : max_from (is_better num) run runs ≡ best = ground arith in
        let first : payload_loop num run (run ∷ runs) ≡ payload_loop num run runs =
          unfold payload_loop in
          elim (Bool-cases (is_better_in_payload num run run)) [ inl b ↦ rw b | inr b ↦ rw b ] in
        ap (λ (r : TemperatureRun N Meta). some r.temperature)
          (first ∙ sym (same_loop run runs p.0 p.1) ∙ e)
