-- ===== src/Runner.antt =====
-- benchmark/runner.py
pub mod Result
pub mod Docker
pub mod Trx
pub mod Groups
pub mod Evaluate
