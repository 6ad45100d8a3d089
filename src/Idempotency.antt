-- ===== src/Idempotency.antt =====
-- Idempotency of the requests (the key of a request) and of the outcomes (the payment log).
pub mod Keys
pub mod Lasting
pub mod Replays
pub mod Payments
pub mod Outcomes
