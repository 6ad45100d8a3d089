-- ===== src/Accounts.antt =====
-- src/modules/user, and the users of src/modules/auth/auth.repository.ts.
pub mod Repository
pub mod Service
