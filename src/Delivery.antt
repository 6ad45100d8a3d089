-- ===== src/Delivery.antt =====
-- The outbox: which events a batch takes, and what becomes of them.
pub mod Batches
pub mod Hand
pub mod Retries
pub mod Progress
pub mod Completion
pub mod Answers
