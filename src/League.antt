-- ===== src/League.antt =====
-- The opponents of self-play in src/c4a0/training_v2.py.
pub mod Ids
pub mod Codes
pub mod Requests
pub mod Allocation
pub mod Fairness
pub mod Mixing
pub mod Seats
pub mod Deals
pub mod Tests
