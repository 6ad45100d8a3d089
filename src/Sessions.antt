-- ===== src/Sessions.antt =====
-- Rotation, the bound on sessions, and the cleanup.
pub mod Rotation
pub mod Bound
pub mod Cleanup
pub mod Revocation
pub mod Standing
pub mod Refinement
pub mod Histories
