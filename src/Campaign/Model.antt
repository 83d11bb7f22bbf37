-- ===== src/Campaign/Model.antt =====
-- What benchmark/campaign.py keeps in campaign.json and reads in a pair's summary.json. A key that
-- the code reads by `get` is an Option; a file with values of other types is one that cannot be
-- read. The times of a campaign are left out.
use csharp_llm_benchmark.Prelude.{ℕ, String, ◌<>◌, Option, List, Bool}
use csharp_llm_benchmark.Tasks.Model.{Dict}

-- What `suite_contract` says of a task and of a suite.
pub record TaskContract (N : Type 0) : Type 0 where
  pub id : String
  pub version : String
  pub fingerprint : String
  pub available_points : N

pub record SuiteContract (N : Type 0) : Type 0 where
  pub tasks : List (TaskContract N)
  pub discovery_tasks : List (TaskContract N)
  pub score_formula_version : String
  pub suite_version : String

-- The parts of a protocol that campaign.py reads, and the others.
pub record Protocol (N Settings : Type 0) : Type 0 where
  pub temperatures : List N
  pub discovery_enabled : Bool
  pub discovery_temperatures : Option (List N)
  pub calibration_enabled : Bool
  pub suites : Dict (SuiteContract N)
  pub settings : Settings

pub record PairState : Type 0 where
  pub path : String
  pub status : String
  pub error : Option String

pub record CampaignData (N Settings : Type 0) : Type 0 where
  pub schema_version : ℕ
  pub campaign_id : String
  pub protocol : Protocol N Settings
  pub protocol_hash : String
  pub full_scope : Bool
  pub status : String
  pub pairs : Dict PairState

-- The keys of `evaluation` in a summary.
pub record EvaluationMetadata (N : Type 0) : Type 0 where
  pub protocol_hash : Option String
  pub tasks : Option (List (TaskContract N))
  pub discovery_tasks : Option (List (TaskContract N))
  pub score_formula_version : Option String
  pub suite_version : Option String

pub record SummaryRow (N : Type 0) : Type 0 where
  pub task_id : String
  pub available_points : N

pub record TemperatureScore (N : Type 0) : Type 0 where
  pub temperature : N
  pub earned_points : N

pub record DiscoverySummary (N : Type 0) : Type 0 where
  pub sample_task_ids : Option (List String)
  pub temperature_scores : List (TemperatureScore N)
  pub selected_temperature : Option N

pub record PairSummary (N : Type 0) : Type 0 where
  pub campaign_id : Option String
  pub suite : Option String
  pub generator : Option String
  pub evaluation : EvaluationMetadata N
  pub tasks : List (SummaryRow N)
  pub discovery : Option (DiscoverySummary N)
  pub selected_temperature : Option N

-- `f'{suite}/{generator}'`
abbrev pub pair_key : String × String → String
pair_key (suite, generator) = suite <> "/" <> generator
