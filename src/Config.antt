-- ===== src/Config.antt =====
-- src/c4a0/config.py: the validated settings. The bounds that pydantic reads off each field, and the
-- model validators behind them.
pub mod Training
pub mod Checks
pub mod Accepted
pub mod Runs
pub mod Schedules
pub mod Tests
