-- ===== src/Export.antt =====
-- Asynchronous vault exports: afair/substrate/export_jobs.py, afair/mcp/export_job.py and
-- afair/mcp/export_async_routes.py.
pub mod Jobs
pub mod Runner
pub mod Routes
pub mod Purge
pub mod Race
pub mod Download
mod Tests
