-- ===== src/Calibration.antt =====
-- benchmark/calibration.py: the measured speed, the search for a number of generation workers, the
-- timeout, and the checks on a saved calibration.
pub mod Config
pub mod Measure
pub mod Saved
