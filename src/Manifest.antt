-- ===== src/Manifest.antt =====
-- `RunManifest` of src/c4a0/training_v2.py: the tables of run.sqlite3 and the statements on them.
pub mod Tables
pub mod Statements
pub mod Rows
pub mod Invariant
pub mod Artifacts
pub mod Decisions
pub mod Window
pub mod Tests
pub mod Kept
pub mod Paths
