-- ===== src/Replay.antt =====
-- The replay window of src/c4a0/training_v2.py: `ReplayPool` and `ReplayPrefetcher`.
pub mod Games
pub mod Pool
pub mod Caching
pub mod Batches
pub mod Rows
pub mod Partition
pub mod Prefetcher
pub mod Prefetching
pub mod Threads
pub mod Shards
pub mod Ahead
pub mod Tests
