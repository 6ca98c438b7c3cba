-- ===== src/Coordinator.antt =====
-- `_run_async_training_owned` of src/c4a0/training_v2.py: the process that owns the manifest and steers
-- the self-play actor and the trainer.
pub mod State
pub mod Learner
pub mod Handlers
pub mod Loop
pub mod Invariant
pub mod Pruning
pub mod Learning
pub mod Choice
pub mod Steps
pub mod Verdicts
pub mod Candidates
pub mod Shards
pub mod Messages
pub mod Pressure
pub mod Tests
pub mod Generation
