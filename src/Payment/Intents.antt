-- ===== src/Payment/Intents.antt =====
-- The deposit intents of src/modules/payment: createDepositIntent of payment.service.ts and of the
-- adapters of Stripe and Braintree, whose libraries' answers are parameters. Of a failed intent the
-- text of the error is kept.
use payment_wallet_system.Prelude.{String, Option, none, some, Bool, true, false}
use payment_wallet_system.Prelude.Int.{ℤ}
use payment_wallet_system.Db.Schema.{
  Uuid, Decimal, Currency, Provider, stripe, paypal, internal, User, Db,
}
use payment_wallet_system.Db.Tx.{
  Tx, not_found, wallet_not_found, plain_error, no_adapter, gets, or_throw, throw, pure, ◌>>=◌,
  ◌>>◌,
}
use payment_wallet_system.Db.Writes.{find_user}
use payment_wallet_system.Wallet.{find_by_user_id, assert_active, assert_currency_match}
use payment_wallet_system.Payment.Repository.{truthy}
use payment_wallet_system.Payment.Providers.{Answer, answered, thrown, cents}

pub record CreateDepositIntentDto : Type 0 where
  pub provider : Provider
  pub amount : Decimal
  pub currency : Currency

-- The payload that the service hands to an adapter.
pub record IntentPayload : Type 0 where
  pub user_id : Uuid
  pub wallet_id : Uuid
  pub amount : Decimal
  pub currency : Currency
  pub customer_id : Option String

pub record DepositIntentResult : Type 0 where
  pub success : Bool
  pub client_secret : Option String
  pub client_token : Option String
  pub intent_id : Option String
  pub error_message : Option String

pub record StripeIntent : Type 0 where
  pub id : String
  pub client_secret : String

pub record IntentApis : Type 0 where
  pub create_intent : ℤ → Currency → Uuid → Uuid → Answer StripeIntent
  pub generate_client_token : Option String → Answer String

abbrev pub failed_intent : String → DepositIntentResult
failed_intent error = record {
  success = false;
  client_secret = none;
  client_token = none;
  intent_id = none;
  error_message = some error;
}

-- `StripeProvider.createDepositIntent`
unfoldable pub stripe_create_deposit_intent : IntentApis → IntentPayload → DepositIntentResult
unfolding cents
stripe_create_deposit_intent api p =
    elim (api.create_intent (cents p.amount) p.currency p.user_id p.wallet_id) [
      | answered intent ↦ record {
        success = true;
        client_secret = some intent.client_secret;
        client_token = none;
        intent_id = some intent.id;
        error_message = none;
      }
      | thrown error ↦ failed_intent error
    ]

-- `PaypalProvider.createDepositIntent`, a client token of Braintree.
unfoldable pub paypal_create_deposit_intent : IntentApis → IntentPayload → DepositIntentResult
paypal_create_deposit_intent api p = elim (api.generate_client_token (truthy p.customer_id)) [
  | answered token ↦ record {
    success = true;
    client_secret = none;
    client_token = some token;
    intent_id = none;
    error_message = none;
  }
  | thrown error ↦ failed_intent error
]

abbrev pub resolve_intent : IntentApis → Provider → Tx (IntentPayload → DepositIntentResult)
resolve_intent api stripe = pure (stripe_create_deposit_intent api)
resolve_intent api paypal = pure (paypal_create_deposit_intent api)
resolve_intent api internal = throw (plain_error no_adapter)

abbrev pub customer_of : Option User → Option String
customer_of none = none
customer_of (some u) = u.braintree_customer_id

-- Only Braintree is told of a customer.
abbrev pub intent_customer : Provider → Uuid → Db → Option String
intent_customer paypal user_id db = customer_of (find_user user_id db)
intent_customer _ user_id db = none

unfoldable pub create_deposit_intent :
    IntentApis → Uuid → CreateDepositIntentDto → Tx DepositIntentResult
unfolding stripe_create_deposit_intent paypal_create_deposit_intent
create_deposit_intent api user_id dto = do
  wallet ← or_throw (← gets (find_by_user_id user_id)) (not_found wallet_not_found)
  assert_active wallet
  assert_currency_match wallet dto.currency
  adapter ← resolve_intent api dto.provider
  customer ← gets (intent_customer dto.provider user_id)
  pure (
      adapter (record {
        user_id = user_id;
        wallet_id = wallet.id;
        amount = dto.amount;
        currency = dto.currency;
        customer_id = customer;
      }))
