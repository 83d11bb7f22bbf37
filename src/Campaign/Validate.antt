-- ===== src/Campaign/Validate.antt =====
-- benchmark/campaign.py: `validate_pair_summary`.
pub mod Points
pub mod Rows
pub mod Winner
use csharp_llm_benchmark.Prelude.{
  String, Option, none, some, List, [], ◌∷◌, map, any, all, mem, length, is_empty, Bool, true,
  false, not, ◌&&◌, ◌||◌, ◌==◌, ltb, nat_eq, string_eq, if◌then◌else◌,
}
use csharp_llm_benchmark.Prelude.Numbers.{Numbers}
use csharp_llm_benchmark.Prelude.Order.{tuple_lt, max_from}
use csharp_llm_benchmark.Tasks.Model.{Dict, keys}
use csharp_llm_benchmark.Campaign.Model.{
  TaskContract, SuiteContract, Protocol, CampaignData, EvaluationMetadata, SummaryRow,
  TemperatureScore, DiscoverySummary, PairSummary,
}

-- How the validation ends; `crashed` is a KeyError, or `max` of no scores.
pub data Verdict : Type 0 where
  valid : Verdict
  incompatible : Verdict
  incomplete : Verdict
  incomplete_discovery : Verdict
  other_temperature : Verdict
  crashed : Verdict

-- `d[key]`, and `d[key] = value` in place or at the end.
abbrev pub at_key : {V : Type 0} → String → Dict V → Option V
at_key key [] = none
at_key key ((k, v) ∷ rest) = let other = at_key key rest in if k == key then some v else other

abbrev pub put_key : {V : Type 0} → String → V → Dict V → Dict V
put_key key value [] = (key, value) ∷ []
put_key key value ((k, v) ∷ rest) =
    let other = put_key key value rest in if k == key then (k, value) ∷ rest else (k, v) ∷ other

-- `a == b` of lists.
abbrev pub same_list : {A : Type 0} → (A → A → Bool) → List A → List A → Bool
same_list same [] [] = true
same_list same [] (y ∷ ys) = false
same_list same (x ∷ xs) [] = false
same_list same (x ∷ xs) (y ∷ ys) = same x y && same_list same xs ys

-- `d.get(key) == value`
abbrev pub is_value : {A : Type 0} → (A → A → Bool) → Option A → A → Bool
is_value same none value = false
is_value same (some a) value = same a value

-- `set(xs) == set(ys)`
abbrev pub same_elements : {A : Type 0} → (A → A → Bool) → List A → List A → Bool
same_elements same xs ys = all (λ x. any (same x) ys) xs && all (λ y. any (λ x. same x y) xs) ys

abbrev pub same_text : String → String → Bool
same_text a b = a == b

module _ {N : Type 0} where
  -- `{t['id']: t['available_points'] for t in tasks}`
  abbrev pub points_from : Dict N → List (TaskContract N) → Dict N
  points_from points [] = points
  points_from points (t ∷ tasks) = points_from (put_key t.id t.available_points points) tasks

  abbrev pub row_ids : List (SummaryRow N) → List String
  row_ids rows = map (λ (r : SummaryRow N). r.task_id) rows

  -- `llm['discovery']['temperatures'] or llm['temperatures']`
  abbrev pub candidates_of : Option (List N) → List N → List N
  candidates_of (some (t ∷ ts)) temperatures = t ∷ ts
  candidates_of (some []) temperatures = temperatures
  candidates_of none temperatures = temperatures

  abbrev pub is_some : Option (List N) → Bool
  is_some none = false
  is_some (some ts) = true

  -- Whether the temperature is one that a discovery chose.
  abbrev pub is_discovered : {Settings : Type 0} → CampaignData N Settings → List N → Bool
  is_discovered campaign candidates =
      campaign.full_scope
      && (campaign.protocol.discovery_enabled
          && (ltb 1 (length candidates) || is_some campaign.protocol.discovery_temperatures))

  abbrev pub or_no_discovery : Option (DiscoverySummary N) → DiscoverySummary N
  or_no_discovery none = record {
    sample_task_ids = none;
    temperature_scores = [];
    selected_temperature = none;
  }
  or_no_discovery (some discovery) = discovery

  abbrev pub score_temperatures : List (TemperatureScore N) → List N
  score_temperatures scores = map (λ (s : TemperatureScore N). s.temperature) scores

module _ {N : Type 0} (num : Numbers N) where
  abbrev pub same_task : TaskContract N → TaskContract N → Bool
  same_task a b =
      a.id == b.id
      && (a.version == b.version
          && (a.fingerprint == b.fingerprint && num.same a.available_points b.available_points))

  -- The keys of `expected` in the metadata.
  abbrev pub has_contract : EvaluationMetadata N → SuiteContract N → Bool
  has_contract metadata expected =
      is_value (same_list same_task) metadata.tasks expected.tasks
      && (is_value (same_list same_task) metadata.discovery_tasks expected.discovery_tasks
          && (is_value same_text metadata.score_formula_version expected.score_formula_version
              && is_value same_text metadata.suite_version expected.suite_version))

  abbrev pub is_compatible :
      {Settings : Type 0}
      → CampaignData N Settings
      → SuiteContract N
      → String
      → String
      → PairSummary N
      → Bool
  is_compatible campaign expected suite generator payload =
      is_value same_text payload.campaign_id campaign.campaign_id
      && (is_value same_text payload.evaluation.protocol_hash campaign.protocol_hash
          && (is_value same_text payload.suite suite
              && (is_value same_text payload.generator generator
                  && has_contract payload.evaluation expected)))

  -- The three tests of the rows, the last of which reads the points of each row's task.
  abbrev pub is_complete : Dict N → List (SummaryRow N) → Bool
  is_complete points rows =
      length rows == length points
      && (same_elements same_text (row_ids rows) (keys points)
          && all
              (λ (r : SummaryRow N). is_value num.same (at_key r.task_id points) r.available_points)
              rows)

  -- `(row['earned_points'], -row['temperature'])`
  abbrev pub score_key : TemperatureScore N → List N
  score_key row = row.earned_points ∷ num.neg row.temperature ∷ []

  abbrev pub scores_higher : TemperatureScore N → TemperatureScore N → Bool
  scores_higher a b = tuple_lt num (score_key b) (score_key a)

  abbrev pub is_complete_discovery : SuiteContract N → List N → DiscoverySummary N → Bool
  is_complete_discovery expected candidates discovery =
      is_value (same_list same_text) discovery.sample_task_ids
        (map (λ (t : TaskContract N). t.id) expected.discovery_tasks)
      && (length discovery.temperature_scores == length candidates
          && same_elements num.same (score_temperatures discovery.temperature_scores) candidates)

  -- The last test, by the best of the scores.
  unfoldable pub check_winner : List (TemperatureScore N) → Option N → Option N → Verdict
  unfolding max_from
  check_winner [] selected used = crashed
  check_winner (s ∷ scores) selected used =
      let winner = (max_from scores_higher s scores).temperature in
      if is_value num.same selected winner && is_value num.same used winner
      then valid
      else other_temperature

  unfoldable pub check_discovery :
      {Settings : Type 0}
      → CampaignData N Settings
      → SuiteContract N
      → PairSummary N
      → List N
      → Verdict
  unfolding check_winner
  check_discovery campaign expected payload candidates =
      let discovery = or_no_discovery payload.discovery in
      if not (is_discovered campaign candidates)
      then valid
      else if is_complete_discovery expected candidates discovery
      then check_winner discovery.temperature_scores discovery.selected_temperature
          payload.selected_temperature
      else incomplete_discovery

  abbrev pub validate_against :
      {Settings : Type 0}
      → CampaignData N Settings
      → String
      → String
      → PairSummary N
      → SuiteContract N
      → Verdict
  validate_against campaign suite generator payload expected =
      if not (is_compatible campaign expected suite generator payload)
      then incompatible
      else if not (is_complete (points_from [] expected.tasks) payload.tasks)
      then incomplete
      else check_discovery campaign expected payload
          (candidates_of campaign.protocol.discovery_temperatures campaign.protocol.temperatures)

  unfoldable pub validate_pair_summary :
      {Settings : Type 0} → CampaignData N Settings → String → String → PairSummary N → Verdict
  unfolding check_discovery
  validate_pair_summary campaign suite generator payload =
      elim (at_key suite campaign.protocol.suites) [
        | none ↦ crashed
        | some expected ↦ validate_against campaign suite generator payload expected
      ]
