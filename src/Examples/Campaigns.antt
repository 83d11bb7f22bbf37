-- ===== src/Examples/Campaigns.antt =====
-- A campaign of two pairs, of which one has a summary and the other fails.
use csharp_llm_benchmark.Prelude.{
  ◌≡◌, refl, ℕ, String, none, some, List, [], ◌∷◌, Bool, true, false, ◌==◌, string_eq,
  if◌then◌else◌,
}
use csharp_llm_benchmark.Prelude.Numbers.{nat_numbers}
use csharp_llm_benchmark.Campaign.Model.{
  TaskContract, SuiteContract, Protocol, CampaignData, PairSummary,
}
use csharp_llm_benchmark.Campaign.Validate.{
  valid, at_key, check_winner, check_discovery, validate_pair_summary,
}
use csharp_llm_benchmark.Campaign.Validate.Rows.{IsComplete, validate_pair_summary-IsComplete}
use csharp_llm_benchmark.Campaign.Pairs.{Campaign, Summaries, completed, official_protocol}
use csharp_llm_benchmark.Campaign.Run.{Executor, escaped, check_single, run_single}
use csharp_llm_benchmark.Campaign.Run.Finished.{started}

abbrev task_of : String → ℕ → TaskContract ℕ
task_of id points = record {
  id = id;
  version = "1";
  fingerprint = "sha";
  available_points = points;
}

abbrev contract : SuiteContract ℕ
contract = record {
  tasks = task_of "t1" 60 ∷ task_of "t2" 40 ∷ [];
  discovery_tasks = task_of "d1" 10 ∷ [];
  score_formula_version = "evolution-v1";
  suite_version = "v";
}

abbrev protocol : Protocol ℕ String
protocol = record {
  temperatures = 2 ∷ 4 ∷ [];
  discovery_enabled = true;
  discovery_temperatures = none;
  calibration_enabled = true;
  suites = ("evolution", contract) ∷ [];
  settings = "docker";
}

abbrev two_pairs : List (String × String)
two_pairs = ("evolution", "opencode") ∷ ("evolution", "pi") ∷ []

abbrev half_done : CampaignData ℕ String
half_done = record {
  schema_version = 1;
  campaign_id = "c1";
  protocol = protocol;
  protocol_hash = "docker";
  full_scope = true;
  status = "incomplete";
  pairs =
      (
        "evolution/opencode",
        record { path = "evolution/opencode"; status = "completed"; error = none },
      )
      ∷ (
        "evolution/pi",
        record { path = "evolution/pi"; status = "failed"; error = some "stopped" },
      )
      ∷ [];
}

abbrev summary : PairSummary ℕ
summary = record {
  campaign_id = some "c1";
  suite = some "evolution";
  generator = some "opencode";
  evaluation = record {
    protocol_hash = some "docker";
    tasks = some contract.tasks;
    discovery_tasks = some contract.discovery_tasks;
    score_formula_version = some "evolution-v1";
    suite_version = some "v";
  };
  tasks =
      record { task_id = "t2"; available_points = 40 }
      ∷ record { task_id = "t1"; available_points = 60 }
      ∷ [];
  discovery = some (record {
    sample_task_ids = some ("d1" ∷ []);
    temperature_scores =
        record { temperature = 2; earned_points = 5 }
        ∷ record { temperature = 4; earned_points = 9 }
        ∷ [];
    selected_temperature = some 4;
  });
  selected_temperature = some 4;
}

summary_valid : validate_pair_summary nat_numbers half_done "evolution" "opencode" summary ≡ valid
unfolding validate_pair_summary check_discovery check_winner
summary_valid = refl

validate_pair_summary-IsComplete_example :
    (summary.campaign_id ≡ some half_done.campaign_id)
    × (summary.suite ≡ some "evolution")
    × (summary.generator ≡ some "opencode")
    × ((expected : SuiteContract ℕ) × (at_key "evolution" half_done.protocol.suites ≡ some expected)
        × IsComplete nat_numbers expected.tasks summary.tasks)
validate_pair_summary-IsComplete_example =
    validate_pair_summary-IsComplete nat_numbers half_done "evolution" "opencode" summary
      summary_valid

-- The summaries before the campaign is resumed, and an execution that fails.
abbrev stored : Summaries ℕ
stored = λ key. if key == "evolution/opencode" then some summary else none

abbrev failing : Executor ℕ ℕ
failing = record {
  execute = λ summaries key. record { summary = none; score = none };
  load_completed_pair = λ summaries key. some 100;
  message = λ key. "stopped";
}

abbrev hash_of : Protocol ℕ String → String
hash_of p = p.settings

abbrev same_settings_of : Protocol ℕ String → Protocol ℕ String → Bool
same_settings_of a b = a.settings == b.settings

-- A campaign of one pair whose summary is gone: the run raises, and the pair stays completed.
abbrev one_pair : Campaign ℕ String
one_pair = record {
  contents = record half_done {
    status = "completed";
    pairs =
        (
          "evolution/opencode",
          record { path = "evolution/opencode"; status = "completed"; error = none },
        )
        ∷ [];
  };
  resumed = true;
  saved = none;
}

single_stuck :
    run_single nat_numbers failing (started one_pair (λ key. none)) ("evolution", "opencode")
    ≡ escaped (started one_pair (λ key. none))
unfolding run_single completed check_single
single_stuck = refl

not_official : official_protocol half_done ≡ false
unfolding official_protocol
not_official = refl
