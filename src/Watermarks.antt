-- ===== src/Watermarks.antt =====
-- The cursors of the cold-path workers: afair/substrate/watermarks.py.
pub mod Store
pub mod Frontier
pub mod Cycle
pub mod Safety
pub mod Selection
pub mod NeverSkip
mod Tests
