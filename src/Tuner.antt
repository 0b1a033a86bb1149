-- ===== src/Tuner.antt =====
-- The record of the self-improvement tuner and the monitor that rolls its promotes back:
-- afair/substrate/tuner_state.py and afair/agents/rollback_monitor.py.
pub mod State
pub mod Monitor
pub mod Number
pub mod Values
pub mod Validate
pub mod Whitelist
pub mod Registry
pub mod Fresh
pub mod Recorded
pub mod Hysteresis
pub mod Allowed
pub mod Fire
pub mod NotANumber
pub mod Modes
pub mod Active
pub mod Verdict
mod Tests
mod RegistryTests
