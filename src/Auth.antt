-- ===== src/Auth.antt =====
-- src/modules/auth: tokens, sessions, and the service over them. src/modules/crypto seals what the
-- sessions keep in Redis.
pub mod Outside
pub mod Expiry
pub mod Sealing
pub mod Calls
pub mod Tokens
pub mod Sessions
pub mod Service
pub mod Guard
pub mod Cleanup
