-- ===== src/Tests/Connect.antt =====
-- An account at Stripe that is created and deauthorized, and the responses to exceptions.
use payment_wallet_system.Prelude.{refl, some, none, false, Option, String}
use payment_wallet_system.Accounts.Repository.{update_user}
use payment_wallet_system.Auth.Calls.{Server}
use payment_wallet_system.Connect.Deauthorization.{handle_account_deauthorized-Refuses}
use payment_wallet_system.Connect.Service.{
  ConnectAccountResponse, ConnectClient, account_of_other, clear_connect_account_id,
  create_and_persist_account, create_connect_account, find_by_connect_account_id,
  generate_onboarding_link, set_connect_account_id,
}
use payment_wallet_system.Connect.Webhook.{StripeEvent, handle_account_deauthorized}
use payment_wallet_system.Db.Query.{find_first}
use payment_wallet_system.Db.Schema.{User, stripe}
use payment_wallet_system.Db.Table.{find_unique, replace}
use payment_wallet_system.Db.Tx.{Refuses}
use payment_wallet_system.Payment.Service.{CreatePayoutDto, create_payout}
use payment_wallet_system.Tests.Data.{genesis, paypal_payout, stamp, user_row}

abbrev stripe_client : String → ConnectClient
stripe_client a = record {
  create_account = λ email. some a;
  create_account_link = λ id. some "url";
  retrieve_account = λ id. none;
}

abbrev start : Server (Unit {0})
start = record { db = genesis; redis = tt }

abbrev connected : Server (Unit {0})
connected = (create_connect_account (stripe_client "acct") 2 "two@example.org" start).1

abbrev answer : ConnectAccountResponse
answer = record { account_id = "acct"; onboarding_url = "url" }

abbrev gone : StripeEvent
gone = record {
  id = "evt";
  type = "account.application.deauthorized";
  account = some "acct";
  object = record { id = ""; charges_enabled = false; payouts_enabled = false };
}

abbrev connected_user : User
connected_user = record (user_row 2 none) { stripe_connect_account_id = some "acct" }

abbrev withdrawn : Server (Unit {0})
withdrawn = (handle_account_deauthorized gone connected).1

abbrev stripe_payout : CreatePayoutDto
stripe_payout = record (paypal_payout 50 10) { provider = stripe }

handle_account_deauthorized-Refuses_example :
    Refuses withdrawn.db (create_payout (stamp 4) 2 stripe_payout withdrawn.db)
unfolding find_unique replace find_first update_user account_of_other set_connect_account_id
    create_and_persist_account generate_onboarding_link create_connect_account
    find_by_connect_account_id clear_connect_account_id handle_account_deauthorized
handle_account_deauthorized-Refuses_example =
    handle_account_deauthorized-Refuses gone "acct" connected_user (stamp 4) stripe_payout connected
      withdrawn.db refl refl refl refl refl refl

abbrev accepts : String → String → String → Option StripeEvent
accepts body signature secret = some gone
