-- ===== src/Payment.antt =====
-- src/modules/payment: the repository, the service, the provider adapters, the settlement and the
-- outbox processor.
pub mod Repository
pub mod Service
pub mod Providers
pub mod Settlement
pub mod Processor
pub mod Intents
pub mod Tokens
