-- ===== src/Examples.antt =====
-- Concrete inputs: the theorems applied to them, and the operations run on them.
mod Data
mod Source
mod Scores
mod Runs
mod Speed
mod Loading
mod Projects
mod Campaigns
mod Backfill
mod Metadata
mod Work
mod Events
mod Signed
