-- ===== src/Source.antt =====
-- benchmark/solution.py: the code that is taken from a model's answer.
pub mod Strip
pub mod Scan
mod Cursor
mod Loops
mod Literals
mod Calls
pub mod Refine
pub mod Shape
pub mod Extract
