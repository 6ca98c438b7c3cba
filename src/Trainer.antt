-- ===== src/Trainer.antt =====
-- `_trainer_process` of src/c4a0/training_v2.py.
pub mod State
pub mod Commands
pub mod Rounds
pub mod Quiet
pub mod Steady
pub mod Runs
pub mod Ledger
pub mod Progress
pub mod Submits
pub mod Tests
