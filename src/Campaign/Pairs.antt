-- ===== src/Campaign/Pairs.antt =====
-- benchmark/campaign.py: the class `Campaign`. `none`, or `interrupted` with what was changed before,
-- is an exception.
use csharp_llm_benchmark.Prelude.{
  String, Option, none, some, List, [], ◌∷◌, ◌++◌, map, all, mem, length, is_empty, Bool, true,
  false, not, ◌&&◌, ◌||◌, ◌==◌, ◌>>=◌, string_eq, nat_eq, if◌then◌else◌,
}
use csharp_llm_benchmark.Prelude.Numbers.{Numbers}
use csharp_llm_benchmark.Tasks.Model.{Dict, keys, values}
use csharp_llm_benchmark.Tasks.Validate.{supported_suites}
use csharp_llm_benchmark.Campaign.Model.{Protocol, PairState, CampaignData, PairSummary, pair_key}
use csharp_llm_benchmark.Campaign.Validate.{
  Verdict, valid, at_key, put_key, same_elements, same_text, candidates_of, validate_pair_summary,
}

-- The object, and the file campaign.json.
pub record Campaign (N Settings : Type 0) : Type 0 where
  pub contents : CampaignData N Settings
  pub resumed : Bool
  pub saved : Option (CampaignData N Settings)

pub data PairUpdate (N Settings : Type 0) : Type 0 where
  updated : Campaign N Settings → PairUpdate N Settings
  interrupted : Campaign N Settings → PairUpdate N Settings

-- The files summary.json by the keys of their pairs, with `none` for one that cannot be read.
abbrev pub Summaries : Type 0 → Type 0
Summaries N = String → Option (PairSummary N)

abbrev pub supported_generators : List String
supported_generators = "opencode" ∷ "pi" ∷ []

abbrev pub is_supported : String × String → Bool
is_supported (suite, generator) = mem suite supported_suites && mem generator supported_generators

abbrev pub is_completed : PairState → Bool
is_completed pair = pair.status == "completed"

abbrev pub status_of : Dict PairState → String
status_of pairs = if all is_completed (values pairs) then "completed" else "incomplete"

-- The file is replaced at once; that it cannot be written is left out.
abbrev pub save_campaign : {N Settings : Type 0} → Campaign N Settings → Campaign N Settings
save_campaign campaign =
    let contents = record campaign.contents { status = status_of campaign.contents.pairs } in
    record campaign { contents = contents; saved = some contents }

-- The dictionary of the pairs, filled from the left.
abbrev pub pending_from : Dict PairState → List (String × String) → Dict PairState
pending_from pairs [] = pairs
pending_from pairs (pair ∷ rest) =
    pending_from
      (put_key (pair_key pair) (record { path = pair_key pair; status = "pending"; error = none })
        pairs)
      rest

module _ {N Settings : Type 0} (hash : Protocol N Settings → String) where
  -- `identity` is the random name of the campaign.
  unfoldable pub create :
      String → Protocol N Settings → List (String × String) → Bool → Campaign N Settings
  create identity protocol pairs full_scope = save_campaign (record {
    contents = record {
      schema_version = 1;
      campaign_id = identity;
      protocol = protocol;
      protocol_hash = hash protocol;
      full_scope = full_scope;
      status = "incomplete";
      pairs = pending_from [] pairs;
    };
    resumed = false;
    saved = none;
  })

  module _ (same_protocol : Protocol N Settings → Protocol N Settings → Bool) where
    abbrev pub is_of_protocol : CampaignData N Settings → Protocol N Settings → Bool
    is_of_protocol contents protocol =
        contents.schema_version == 1
        && (contents.protocol_hash == hash protocol && same_protocol contents.protocol protocol)

    -- The two tests, and the campaign.
    abbrev pub resume_data :
        CampaignData N Settings
        → Protocol N Settings
        → List (String × String)
        → Option (Campaign N Settings)
    resume_data contents protocol pairs =
        if not (is_of_protocol contents protocol)
        then none
        else if not (same_elements same_text (keys contents.pairs) (map pair_key pairs))
        then none
        else some (record { contents = contents; resumed = true; saved = some contents })

    -- From the file that is read.
    unfoldable pub resume :
        Option (CampaignData N Settings)
        → Protocol N Settings
        → List (String × String)
        → Option (Campaign N Settings)
    resume file protocol pairs = do contents ← file; resume_data contents protocol pairs

abbrev pub accepts : Verdict → Bool
accepts valid = true
accepts _ = false

module _ {N Settings : Type 0} (num : Numbers N) where
  -- Reading the summary of a pair and validating it, without an exception.
  abbrev pub passes : CampaignData N Settings → String × String → Option (PairSummary N) → Bool
  passes contents key none = false
  passes contents (suite, generator) (some payload) =
      accepts (validate_pair_summary num contents suite generator payload)

  abbrev pub is_valid : CampaignData N Settings → Summaries N → String × String → Bool
  is_valid contents summaries key =
      is_supported key && passes contents key (summaries (pair_key key))

  abbrev pub with_pair : CampaignData N Settings → String → PairState → CampaignData N Settings
  with_pair contents key pair = record contents { pairs = put_key key pair contents.pairs }

  -- The pair is changed before its summary is validated.
  abbrev pub update_found :
      Summaries N
      → Campaign N Settings
      → String × String
      → String
      → Option String
      → PairState
      → PairUpdate N Settings
  update_found summaries campaign key status error pair =
      let contents =
        with_pair campaign.contents (pair_key key)
          (record pair { status = status; error = error }) in
      let changed = record campaign { contents = contents } in
      if status == "completed" && not (is_valid contents summaries key)
      then interrupted changed
      else updated (save_campaign changed)

  unfoldable pub update_pair :
      Summaries N
      → Campaign N Settings
      → String × String
      → String
      → Option String
      → PairUpdate N Settings
  update_pair summaries campaign key status error =
      elim (at_key (pair_key key) campaign.contents.pairs) [
        | none ↦ interrupted campaign
        | some pair ↦ update_found summaries campaign key status error pair
      ]

  abbrev pub completed_pair :
      Summaries N → Campaign N Settings → String × String → PairState → Option Bool
  completed_pair summaries campaign key pair =
      if not (is_completed pair)
      then some false
      else if is_valid campaign.contents summaries key
      then some true
      else none

  unfoldable pub completed : Summaries N → Campaign N Settings → String × String → Option Bool
  completed summaries campaign key = do
    pair ← at_key (pair_key key) campaign.contents.pairs
    completed_pair summaries campaign key pair

-- `{f'{s}/{g}' for s in SUPPORTED_SUITES for g in SUPPORTED_GENERATORS}`
abbrev pub supported_pairs : List String → List String → List (String × String)
supported_pairs [] generators = []
supported_pairs (s ∷ suites) generators =
    map (λ (g : String). (s, g)) generators ++ supported_pairs suites generators

-- Whether a campaign may be published.
unfoldable pub official_protocol : {N Settings : Type 0} → CampaignData N Settings → Bool
official_protocol campaign =
    let temperatures = campaign.protocol.temperatures in
    campaign.full_scope
    && (campaign.protocol.calibration_enabled
        && ((campaign.protocol.discovery_enabled || length temperatures == 1)
            && (not (is_empty (candidates_of campaign.protocol.discovery_temperatures temperatures))
                && same_elements same_text (keys campaign.pairs)
                    (map pair_key (supported_pairs supported_suites supported_generators)))))
