-- ===== src/Entities.antt =====
-- Which entity stands for another: the merges of afair/substrate/entities.py.
pub mod Merges
pub mod Latest
pub mod Chain
pub mod Merged
pub mod Joined
mod Tests
