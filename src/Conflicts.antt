-- ===== src/Conflicts.antt =====
-- The operator's resolution of conflicts: afair/substrate/conflict_resolutions.py.
pub mod Queue
pub mod Decide
pub mod Race
pub mod Carried
pub mod Once
pub mod Effect
pub mod Settled
pub mod Asked
mod Tests
