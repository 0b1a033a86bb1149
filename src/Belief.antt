-- ===== src/Belief.antt =====
-- Belief revision over the derived graph: afair/substrate/belief.py.
pub mod Trust
pub mod Predicates
pub mod Gate
mod Tests
