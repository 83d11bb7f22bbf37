-- ===== src/Json.antt =====
-- The values that Python's `json` module reads, and what the scripts use of Python's built-in types.
pub mod Fields
pub mod Python
