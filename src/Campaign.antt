-- ===== src/Campaign.antt =====
-- benchmark/campaign.py, and the loop over the pairs of a campaign in benchmark/cli.py.
pub mod Model
pub mod Validate
pub mod Pairs
pub mod Run
