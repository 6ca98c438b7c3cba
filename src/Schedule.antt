-- ===== src/Schedule.antt =====
-- The learning rate's schedule: src/c4a0/training_common.py, and `_learning_rate` of
-- src/c4a0/training_v2.py.
pub mod Rates
pub mod Sorting
pub mod Reached
pub mod Parsing
pub mod Tests
