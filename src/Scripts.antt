-- ===== src/Scripts.antt =====
-- scripts/: what the two programs do to the summaries of earlier runs.
pub mod Files
pub mod KvCache
pub mod ModelSize
