-- ===== src/Tokens.antt =====
-- auth_server/security/token_manager.py: the token manager of the auth server. `Keys` has the keys
-- that it signs and verifies with, `Families` the refresh tokens in Redis, `Issue` the tokens.
pub mod Keys
pub mod Polling
pub mod PollingLaws
pub mod Families
pub mod Issue
pub mod Replay
mod Tests
