-- ===== src/Connect/Webhook.antt =====
-- src/modules/stripe-connect/stripe-connect-webhook.service.ts and -webhook.controller.ts. The check
-- of a signature is Stripe's. Of the audit log, what an account.updated event records is kept.
use text.Mathlib.Text.{◌==◌ as str_eq}
use payment_wallet_system.Prelude.{
  String, Option, none, some, Bool, true, false, ◌&&◌, if◌then◌else◌,
}
use payment_wallet_system.Db.Schema.{Uuid, User}
use payment_wallet_system.Db.Tx.{
  Result, ok, err, unauthorized, webhook_not_configured, no_signature, no_raw_body,
  invalid_signature, with_transaction,
}
use payment_wallet_system.Payment.Repository.{truthy}
use payment_wallet_system.Auth.Calls.{Server, Call, ◌>>=◌, give, give_or, read_db, on_db}
use payment_wallet_system.Connect.Service.{
  ConnectAccount, find_by_connect_account_id, clear_connect_account_id,
}

pub record StripeEvent : Type 0 where
  pub id : String
  pub type : String
  pub account : Option String
  pub object : ConnectAccount

-- What a handler has done: nothing, or the entry that it made in the audit log.
pub data Audit : Type 0 where
  nothing : Audit
  onboarding_completed : Uuid → Audit
  deauthorized : Uuid → Bool → Audit

abbrev pub completed : ConnectAccount → Option User → Audit
completed a none = nothing
completed a (some u) =
    if a.charges_enabled && a.payouts_enabled then onboarding_completed u.id else nothing

module _ {R : Type 0} where
  unfoldable pub handle_account_updated : StripeEvent → Call R Audit
  unfolding find_by_connect_account_id
  handle_account_updated event = do
    give (completed event.object (← read_db (find_by_connect_account_id event.object.id)))

  -- The write is caught.
  abbrev pub cleared : Uuid → Result User × Server R → Result Audit × Server R
  cleared id (ok u, s) = (ok (deauthorized id true), s)
  cleared id (err e, s) = (ok (deauthorized id false), s)

  abbrev pub clear_for : Option User → Call R Audit
  clear_for none s = (ok nothing, s)
  clear_for (some u) s = cleared u.id (on_db (with_transaction (clear_connect_account_id u.id)) s)

  abbrev pub deauthorize : Option String → Call R Audit
  deauthorize none = give nothing
  deauthorize (some a) = do clear_for (← read_db (find_by_connect_account_id a))

  unfoldable pub handle_account_deauthorized : StripeEvent → Call R Audit
  unfolding find_by_connect_account_id clear_connect_account_id
  handle_account_deauthorized event = deauthorize (truthy event.account)

  unfoldable pub handle_capability_updated : StripeEvent → Call R Audit
  handle_capability_updated event = give nothing

  unfoldable pub route : StripeEvent → Call R Audit
  unfolding handle_account_updated handle_account_deauthorized handle_capability_updated
  route event =
      if str_eq event.type "account.updated"
      then handle_account_updated event
      else if str_eq event.type "account.application.deauthorized"
      then handle_account_deauthorized event
      else if str_eq event.type "capability.updated"
      then handle_capability_updated event
      else give nothing

  -- Whatever a handler throws is logged.
  abbrev pub acknowledged : Result Audit × Server R → Result Bool × Server R
  acknowledged (ok a, s) = (ok true, s)
  acknowledged (err e, s) = (ok true, s)

  -- `{ received: true }`, or the refusal of a request that is not Stripe's.
  unfoldable pub handle_webhook :
      (String → String → String → Option StripeEvent)
      → Option String
      → Option String
      → Option String
      → Call R Bool
  unfolding route
  handle_webhook construct_event secret raw_body signature = do
    key ← give_or (unauthorized webhook_not_configured) (truthy secret)
    signed ← give_or (unauthorized no_signature) (truthy signature)
    body ← give_or (unauthorized no_raw_body) raw_body
    event ← give_or (unauthorized invalid_signature) (construct_event body signed key)
    λ s. acknowledged (route event s)
