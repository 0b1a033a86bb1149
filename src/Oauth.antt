-- ===== src/Oauth.antt =====
-- The OAuth server: afair/mcp/oauth/storage.py, jwt.py and the token endpoints of routes.py.
pub mod Store
pub mod Codes
pub mod Refresh
pub mod Jwt
pub mod Grants
pub mod Writes
pub mod History
mod Tests
