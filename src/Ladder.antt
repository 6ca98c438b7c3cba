-- ===== src/Ladder.antt =====
-- The strength ladder of src/c4a0/minimax_harness.py: `evaluate_minimax_ladder`.
pub mod Levels
pub mod Counting
pub mod Climb
pub mod Tests
