-- ===== src/Openings.antt =====
-- The openings of the arena in src/c4a0/training_v2.py.
pub mod Board
pub mod Draw
pub mod Distinct
pub mod Lines
pub mod Cells
pub mod Images
pub mod Found
pub mod Loop
pub mod Pairs
pub mod Arena
pub mod Tests
