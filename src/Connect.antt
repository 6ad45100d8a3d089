-- ===== src/Connect.antt =====
-- src/modules/stripe-connect: the accounts at Stripe that payouts go to. The calls of Stripe are
-- parameters.
pub mod Service
pub mod Webhook
pub mod Onboarding
pub mod Deauthorization
pub mod Answering
