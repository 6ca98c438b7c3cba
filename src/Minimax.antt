-- ===== src/Minimax.antt =====
-- src/c4a0/minimax_harness.py: the depth-limited opponent.
pub mod Board
pub mod Search
pub mod Negamax
pub mod Computes
pub mod Cached
pub mod Bounds
pub mod Policy
pub mod Best
pub mod Bits
pub mod Boards
pub mod Optimal
pub mod Rows
pub mod Moves
mod Tests
