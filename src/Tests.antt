-- ===== src/Tests.antt =====
-- Runs of the model on concrete data, and the theorems applied to it.
pub mod Data
pub mod Outside
pub mod Runs
pub mod System
pub mod Delivery
pub mod Services
pub mod Pages
pub mod Payments
pub mod Sessions
pub mod Access
pub mod Connect
