-- ===== src/Substrate.antt =====
-- The append-only substrate and what is derived from it: afair/substrate/events.py,
-- afair/agents/interpretation.py, afair/agents/invalidation.py and
-- afair/agents/extraction_retry.py.
pub mod Events
pub mod Interpretations
pub mod Invalidations
pub mod Retries
pub mod EventLaws
pub mod Writes
pub mod Numbering
pub mod Recorded
pub mod Recall
pub mod Batch
pub mod Bounded
pub mod Superseded
pub mod Samples
mod Tests
