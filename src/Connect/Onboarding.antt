-- ===== src/Connect/Onboarding.antt =====
-- src/modules/stripe-connect/stripe-connect.service.ts: how often an account is asked for.
use payment_wallet_system.Db.Schema.{Db}
