-- ===== src/Books.antt =====
-- The books: what the transactions say that each wallet must hold, and what each callback writes.
pub mod Effects
pub mod Posting
pub mod Deposits
pub mod Withdrawals
pub mod Transfers
pub mod Confirmations
pub mod Payouts
pub mod Outcomes
pub mod Resolving
pub mod Settling
pub mod SettlingLocked
pub mod Failing
pub mod FailingLocked
pub mod Soundness
pub mod Conservation
