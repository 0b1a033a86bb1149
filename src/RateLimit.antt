-- ===== src/RateLimit.antt =====
-- The rate limits of afair/mcp/rate_limit.py: the token buckets, who is asking, and the two
-- middlewares in front of the routes.
pub mod Buckets
pub mod Identity
pub mod Middleware
pub mod Dictionary
pub mod Bounds
pub mod Burst
pub mod Spoofing
mod Tests
pub mod Retry
