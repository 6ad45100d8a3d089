-- ===== src/Access.antt =====
-- src/modules/auth and src/modules/user together: what opens and what ends a user's access.
pub mod Opening
pub mod Registration
pub mod Refreshing
pub mod Denial
pub mod Closing
pub mod Standing
pub mod Passwords
