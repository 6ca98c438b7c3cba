-- ===== src/Jobs.antt =====
-- src/c4a0/gui/jobs.py: the queue of jobs, one worker process at a time.
pub mod State
pub mod Worker
pub mod Slots
pub mod Queue
pub mod Order
pub mod Runs
pub mod Tests
pub mod Status
