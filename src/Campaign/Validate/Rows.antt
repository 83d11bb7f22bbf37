-- ===== src/Campaign/Validate/Rows.antt =====
-- What `validate_pair_summary` establishes of the rows of a summary.
use mathlib.Core.Path.{subst}
use csharp_llm_benchmark.Prelude.{
  ◌≡◌, refl, sym, ap, ◌∙◌, String, Option, none, some, List, [], ◌∷◌, any, all, mem, length, arith,
  Bool, true, false, not, ◌==◌, suc, nat_eq, nat_beq_iff, string_eq, Bool-cases, inl, inr, All, Any,
  IsDistinct, if◌then◌else◌,
}
use csharp_llm_benchmark.Prelude.Numbers.{Numbers}
use csharp_llm_benchmark.Prelude.Pigeonhole.{IsPart, part-IsDistinct}
use csharp_llm_benchmark.Tasks.Model.{Dict, keys}
use csharp_llm_benchmark.Campaign.Model.{
  TaskContract, SuiteContract, CampaignData, SummaryRow, PairSummary,
}
use csharp_llm_benchmark.Campaign.Validate.{
  Verdict, valid, incompatible, incomplete, crashed, at_key, is_value, same_elements, same_text,
  row_ids, points_from, is_compatible, is_complete, candidates_of, check_discovery,
  validate_against, validate_pair_summary,
}
use csharp_llm_benchmark.Campaign.Validate.Points.{
  length-keys, task_ids, points_from-IsDistinct, mem-points_from, at_key-points_from,
}

pub all_mem :
    (p : String → Bool) (xs : List String)
    → all p xs ≡ true
    → (x : String) → mem x xs ≡ true
    → p x ≡ true
all_mem p [] h x there = absurd (cc)
all_mem p (y ∷ xs) h x there = elim (Bool-cases (y == x)) [
  | inl here ↦
      let same : y ≡ x = (string_eq.beq_iff y x).0 here in
      let first : p y ≡ true = ground (arith, h) in subst (λ z. p z ≡ true) same first
  | inr other ↦ all_mem p xs (ground (arith, h)) x (ground (arith, there, other))
]

pub any-mem : (y : String) (xs : List String) → any (λ x. same_text x y) xs ≡ mem y xs
any-mem y [] = refl
any-mem y (x ∷ xs) = ground (arith, any-mem y xs)

module _ {N : Type 0} (num : Numbers N) where
  length-row_ids : (rows : List (SummaryRow N)) → length (row_ids rows) ≡ length rows
  length-row_ids [] = refl
  length-row_ids (r ∷ rows) = ap suc (length-row_ids rows)

  -- A row has the points of a task with its id.
  abbrev pub HasPoints : List (TaskContract N) → SummaryRow N → Type 0
  HasPoints tasks row =
      Any (λ t. (t.id ≡ row.task_id) × (num.same t.available_points row.available_points ≡ true))
        tasks

  rows_points :
      (tasks : List (TaskContract N)) (rows : List (SummaryRow N))
      → all
          (λ (r : SummaryRow N).
            is_value num.same (at_key r.task_id (points_from [] tasks)) r.available_points)
          rows
        ≡ true
      → All (HasPoints tasks) rows
  rows_points tasks [] h = tt
  rows_points tasks (r ∷ rows) h = (
    first (at_key r.task_id (points_from [] tasks)) refl (ground (arith, h)),
    rows_points tasks rows (ground (arith, h)),
  )
    where
      shared :
          (p : N) (l : List (TaskContract N))
          → num.same p r.available_points ≡ true
          → Any (λ t. (t.id ≡ r.task_id) × (t.available_points ≡ p)) l
          → HasPoints l r
      shared p [] same h = elim h [ ]
      shared p (t ∷ l) same (inl (e, points)) =
          inl (e, subst (λ z. num.same z r.available_points ≡ true) (sym points) same)
      shared p (t ∷ l) same (inr h) = inr (shared p l same h)

      first :
          (found : Option N)
          → at_key r.task_id (points_from [] tasks) ≡ found
          → is_value num.same found r.available_points ≡ true
          → HasPoints tasks r
      first none e same = absurd (cc)
      first (some p) e same = elim (at_key-points_from [] tasks r.task_id p e) [
        | inl empty ↦ absurd (cc)
        | inr there ↦ shared p tasks same there
      ]

  -- One row for each task, with its points.
  pub record IsComplete (tasks : List (TaskContract N)) (rows : List (SummaryRow N)) : Type 0 where
    pub once : IsDistinct (row_ids rows)
    pub covered : (id : String) → mem id (task_ids tasks) ≡ true → mem id (row_ids rows) ≡ true
    pub points : All (HasPoints tasks) rows

  is_complete-IsComplete :
      (tasks : List (TaskContract N)) (rows : List (SummaryRow N))
      → is_complete num (points_from [] tasks) rows ≡ true
      → IsComplete tasks rows
  is_complete-IsComplete tasks rows h = record {
    once =
        part-IsDistinct (row_ids rows) (keys points) (points_from-IsDistinct [] tasks tt) part
          (length-row_ids rows ∙ (nat_beq_iff _ _).0 counted ∙ sym (length-keys points));
    covered = λ id there. part id (mem-points_from [] tasks id ∙ there);
    points = rows_points tasks rows (ground (arith, h));
  }
    where
      points : Dict N
      points = points_from [] tasks

      counted : (length rows == length points) ≡ true
      counted = ground (arith, h)

      found : same_elements same_text (row_ids rows) (keys points) ≡ true
      found = ground (arith, h)

      part : IsPart (keys points) (row_ids rows)
      part y there =
          sym (any-mem y (row_ids rows))
          ∙ all_mem (λ z. any (λ x. same_text x z) (row_ids rows)) (keys points)
              (ground (arith, found)) y there

is_value_text : (o : Option String) (v : String) → is_value same_text o v ≡ true → o ≡ some v
is_value_text none v h = absurd (cc)
is_value_text (some a) v h = ap some ((string_eq.beq_iff a v).0 h)

module _ {N Settings : Type 0} (num : Numbers N) (campaign : CampaignData N Settings)
    (suite generator : String) (payload : PairSummary N) where
  abbrev check : SuiteContract N → Verdict
  check expected =
      check_discovery num campaign expected payload
        (candidates_of campaign.protocol.discovery_temperatures campaign.protocol.temperatures)

  against_inv :
      (expected : SuiteContract N)
      → validate_against num campaign suite generator payload expected ≡ valid
      → (is_compatible num campaign expected suite generator payload ≡ true)
        × (is_complete num (points_from [] expected.tasks) payload.tasks ≡ true)
        × (check expected ≡ valid)
  against_inv expected h =
      go (is_compatible num campaign expected suite generator payload)
        (is_complete num (points_from [] expected.tasks) payload.tasks) h
    where
      go :
          (a b : Bool)
          → (if not a then incompatible else if not b then incomplete else check expected) ≡ valid
          → (a ≡ true) × (b ≡ true) × (check expected ≡ valid)
      go false b h = absurd (cc)
      go true false h = absurd (cc)
      go true true h = (refl, refl, h)

  -- A summary is valid by the contract of its suite.
  pub validate_inv :
      validate_pair_summary num campaign suite generator payload ≡ valid
      → (expected : SuiteContract N) × (at_key suite campaign.protocol.suites ≡ some expected)
        × (is_compatible num campaign expected suite generator payload ≡ true)
        × (is_complete num (points_from [] expected.tasks) payload.tasks ≡ true)
        × (check expected ≡ valid)
  unfolding validate_pair_summary
  validate_inv h = go (at_key suite campaign.protocol.suites) refl h
    where
      go :
          (found : Option (SuiteContract N))
          → at_key suite campaign.protocol.suites ≡ found
          → elim found [
            | none ↦ crashed
            | some expected ↦ validate_against num campaign suite generator payload expected
          ]
            ≡ valid
          → (expected : SuiteContract N) × (at_key suite campaign.protocol.suites ≡ some expected)
            × (is_compatible num campaign expected suite generator payload ≡ true)
            × (is_complete num (points_from [] expected.tasks) payload.tasks ≡ true)
            × (check expected ≡ valid)
      go none e h = absurd (cc)
      go (some expected) e h =
          let (fits, rows, discovery) = against_inv expected h in
          (expected, e, fits, rows, discovery)

  -- A summary that the validation accepts is of its campaign, suite and generator, the campaign has
  -- a contract of the suite, and the summary has a row for each task of the contract, no two rows
  -- of one task, and in each row the points that the contract gives to the row's task.
  pub validate_pair_summary-IsComplete :
      validate_pair_summary num campaign suite generator payload ≡ valid
      → (payload.campaign_id ≡ some campaign.campaign_id)
        × (payload.suite ≡ some suite)
        × (payload.generator ≡ some generator)
        × ((expected : SuiteContract N) × (at_key suite campaign.protocol.suites ≡ some expected)
            × IsComplete num expected.tasks payload.tasks)
  validate_pair_summary-IsComplete h =
      let (expected, e, fits, rows, discovery) = validate_inv h in
      (
        is_value_text payload.campaign_id campaign.campaign_id (ground (arith, fits)),
        is_value_text payload.suite suite (ground (arith, fits)),
        is_value_text payload.generator generator (ground (arith, fits)),
        (expected, e, is_complete-IsComplete num expected.tasks payload.tasks rows),
      )
