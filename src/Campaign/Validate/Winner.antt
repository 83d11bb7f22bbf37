-- ===== src/Campaign/Validate/Winner.antt =====
-- What `validate_pair_summary` establishes of the temperature of a summary.
use csharp_llm_benchmark.Prelude.{◌≡◌, Option, List, true, All}
use csharp_llm_benchmark.Prelude.Numbers.{Numbers}
use csharp_llm_benchmark.Prelude.Order.{ComparisonLaws, IsOrdered, IsFirstMax}
use csharp_llm_benchmark.Campaign.Model.{CampaignData, TemperatureScore, PairSummary}
use csharp_llm_benchmark.Campaign.Validate.{
  is_value, candidates_of, or_no_discovery, score_key, scores_higher,
}

abbrev pub payload_scores : {N : Type 0} → PairSummary N → List (TemperatureScore N)
payload_scores payload = (or_no_discovery payload.discovery).temperature_scores

abbrev pub candidates : {N Settings : Type 0} → CampaignData N Settings → List N
candidates campaign =
    candidates_of campaign.protocol.discovery_temperatures campaign.protocol.temperatures

module _ {N : Type 0} (num : Numbers N) (laws : ComparisonLaws num) where
  -- No component of a score's key is NaN.
  abbrev pub HasOrderedScore : TemperatureScore N → Type 0
  HasOrderedScore row = All (IsOrdered num) (score_key num row)

  -- The temperature is that of the first of the best scores.
  abbrev pub IsWinner : List (TemperatureScore N) → Option N → Type 0
  IsWinner scores used =
      (best : TemperatureScore N) × IsFirstMax (scores_higher num) scores best
      × (is_value num.same used best.temperature ≡ true)
