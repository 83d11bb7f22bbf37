-- ===== src/LmStudio.antt =====
-- benchmark/lmstudio_meta.py
pub mod Server
pub mod Match
pub mod Meta
pub mod Resolve
