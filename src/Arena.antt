-- ===== src/Arena.antt =====
-- The promotion arena: src/c4a0/arena_statistics.py, and `_run_arena` and `SprtGate` of
-- src/c4a0/training_v2.py.
pub mod Likelihood
pub mod Gate
pub mod Run
pub mod Counts
pub mod Verdict
pub mod Rounds
pub mod Ends
pub mod Reports
pub mod Tests
