-- ===== src/Campaign/Run.antt =====
-- benchmark/cli.py, `run`: the pairs of a campaign, one after the other, and the branch for a single
-- pair. What `_execute_benchmark` and `_load_completed_pair` do for one pair is a parameter.
pub mod Updates
pub mod Tries
pub mod Rounds
pub mod Settled
pub mod Finished
pub mod Started
use csharp_llm_benchmark.Prelude.{
  ℕ, String, Option, none, some, List, [], ◌∷◌, ◌++◌, any, Bool, true, false, ◌==◌, string_eq,
  if◌then◌else◌,
}
use csharp_llm_benchmark.Prelude.Numbers.{Numbers}
use csharp_llm_benchmark.Campaign.Model.{Protocol, PairSummary, pair_key}
use csharp_llm_benchmark.Campaign.Pairs.{
  Campaign, PairUpdate, updated, interrupted, Summaries, update_pair, completed,
}

-- The summary that stands in the directory of a pair after `_execute_benchmark`, and the score that
-- it returns, `none` for an exception.
pub record Executed (N Score : Type 0) : Type 0 where
  pub summary : Option (PairSummary N)
  pub score : Option Score

pub record Executor (N Score : Type 0) : Type 0 where
  pub execute : Summaries N → String × String → Executed N Score
  pub load_completed_pair : Summaries N → String × String → Option Score
  -- `str(exc)`
  pub message : String × String → String

pub record CampaignState (N Settings Score : Type 0) : Type 0 where
  pub campaign : Campaign N Settings
  pub summaries : Summaries N
  pub results : List ((String × String) × Option Score)

-- The end of a `try` body: with a score, or with an exception.
pub data Tried (N Settings Score : Type 0) : Type 0 where
  scored : CampaignState N Settings Score → Score → Tried N Settings Score
  threw : CampaignState N Settings Score → Tried N Settings Score

-- The end of a round of the loop: on to the next one, or an exception.
pub data Continued (N Settings Score : Type 0) : Type 0 where
  on_to : CampaignState N Settings Score → Continued N Settings Score
  stopped : CampaignState N Settings Score → Continued N Settings Score

-- How `run` ends: with an exit code, or with an exception.
pub data Ended (N Settings Score : Type 0) : Type 0 where
  exited : ℕ → CampaignState N Settings Score → Ended N Settings Score
  escaped : CampaignState N Settings Score → Ended N Settings Score

abbrev pub is_failure : {K Score : Type 0} → K × Option Score → Bool
is_failure (key, none) = true
is_failure (key, some score) = false

abbrev pub put_summary : {N : Type 0} → String → Option (PairSummary N) → Summaries N → Summaries N
put_summary key summary summaries = λ other. if other == key then summary else summaries other

abbrev pub campaign_of : {N Settings : Type 0} → PairUpdate N Settings → Campaign N Settings
campaign_of (updated c) = c
campaign_of (interrupted c) = c

module _ {N Settings Score : Type 0} where
  -- The state with the campaign that an update leaves.
  abbrev pub with_campaign :
      CampaignState N Settings Score → Campaign N Settings → CampaignState N Settings Score
  with_campaign s campaign = record s { campaign = campaign }

  abbrev pub after_completed :
      CampaignState N Settings Score → Score → PairUpdate N Settings → Tried N Settings Score
  after_completed s score (updated c) = scored (with_campaign s c) score
  after_completed s score (interrupted c) = threw (with_campaign s c)

  abbrev pub after_load : CampaignState N Settings Score → Option Score → Tried N Settings Score
  after_load s none = threw s
  after_load s (some score) = scored s score

  -- The results are a dictionary, and no pair comes twice.
  abbrev pub with_result :
      CampaignState N Settings Score
      → String × String
      → Option Score
      → CampaignState N Settings Score
  with_result s key score = record s { results = s.results ++ ((key, score) ∷ []) }

  -- The end of a round.
  abbrev pub after_failed :
      CampaignState N Settings Score → PairUpdate N Settings → Continued N Settings Score
  after_failed s (updated c) = on_to (with_campaign s c)
  after_failed s (interrupted c) = stopped (with_campaign s c)

  abbrev pub reuse_single : CampaignState N Settings Score → Option Score → Ended N Settings Score
  reuse_single s none = escaped s
  reuse_single s (some score) = exited 0 s

module _ {N Settings Score : Type 0} (num : Numbers N) (executor : Executor N Score) where
  unfoldable pub after_execute :
      CampaignState N Settings Score → String × String → Option Score → Tried N Settings Score
  unfolding update_pair
  after_execute s key none = threw s
  after_execute s key (some score) =
      after_completed s score (update_pair num s.summaries s.campaign key "completed" none)

  unfoldable pub after_running :
      CampaignState N Settings Score
      → String × String
      → PairUpdate N Settings
      → Tried N Settings Score
  unfolding after_execute
  after_running s key (interrupted c) = threw (with_campaign s c)
  after_running s key (updated c) =
      let e = executor.execute s.summaries key in
      after_execute
        (record s { campaign = c; summaries = put_summary (pair_key key) e.summary s.summaries })
        key e.score

  unfoldable pub after_check :
      CampaignState N Settings Score → String × String → Option Bool → Tried N Settings Score
  unfolding after_running update_pair
  after_check s key none = threw s
  after_check s key (some true) = after_load s (executor.load_completed_pair s.summaries key)
  after_check s key (some false) =
      after_running s key (update_pair num s.summaries s.campaign key "running" none)

  -- The `try` body of a round.
  unfoldable pub try_pair :
      CampaignState N Settings Score → String × String → Tried N Settings Score
  unfolding after_check completed
  try_pair s key = after_check s key (completed num s.summaries s.campaign key)

  unfoldable pub fail : CampaignState N Settings Score → String × String → PairUpdate N Settings
  unfolding update_pair
  fail s key = update_pair num s.summaries s.campaign key "failed" (some (executor.message key))

  -- An exception is one that `except Exception` catches.
  unfoldable pub settle_pair : String × String → Tried N Settings Score → Continued N Settings Score
  unfolding fail
  settle_pair key (scored s score) = on_to (with_result s key (some score))
  settle_pair key (threw s) = after_failed (with_result s key none) (fail s key)

  -- The loops over the pairs, and the exit code.
  unfoldable pub run_pairs :
      CampaignState N Settings Score → List (String × String) → Ended N Settings Score
  unfolding settle_pair try_pair
  run_pairs s [] = exited (if any is_failure s.results then 1 else 0) s
  run_pairs s (key ∷ rest) = elim (settle_pair key (try_pair s key)) [
    | stopped after ↦ escaped after
    | on_to after ↦ run_pairs after rest
  ]

  -- A single pair: an exception is passed on, after the pair has failed.
  unfoldable pub end_single : String × String → Tried N Settings Score → Ended N Settings Score
  unfolding fail
  end_single key (scored s score) = exited 0 s
  end_single key (threw s) = escaped (with_campaign s (campaign_of (fail s key)))

  unfoldable pub start_single :
      CampaignState N Settings Score
      → String × String
      → PairUpdate N Settings
      → Ended N Settings Score
  unfolding end_single after_running
  start_single s key (interrupted c) = escaped (with_campaign s c)
  start_single s key (updated c) = end_single key (after_running s key (updated c))

  unfoldable pub check_single :
      CampaignState N Settings Score → String × String → Option Bool → Ended N Settings Score
  unfolding start_single update_pair
  check_single s key none = escaped s
  check_single s key (some true) = reuse_single s (executor.load_completed_pair s.summaries key)
  check_single s key (some false) =
      start_single s key (update_pair num s.summaries s.campaign key "running" none)

  unfoldable pub run_single :
      CampaignState N Settings Score → String × String → Ended N Settings Score
  unfolding check_single completed
  run_single s key = check_single s key (completed num s.summaries s.campaign key)
