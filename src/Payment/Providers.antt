-- ===== src/Payment/Providers.antt =====
-- src/modules/payment/providers: the adapters of Stripe and PayPal, and their registry. What the
-- providers' own libraries and servers answer is a parameter.
use Prim.Native.Nat.{◌/◌}
use payment_wallet_system.Prelude.Int.{ℤ, pos, negsuc, pos_part, sub_ℕ}
use payment_wallet_system.Prelude.{
  ℕ, ◌+◌, ◌*◌, ◌≤◌, ◌<◌, arith, String, Option, none, some, Bool, true, false,
}
use payment_wallet_system.Db.Schema.{
  Decimal, Currency, Provider, stripe, paypal, internal, TransactionType, deposit_type,
  withdrawal_type, transfer_type, Payload, RawResponse,
}
use payment_wallet_system.Payment.Repository.{truthy}

-- The normalised answer of a provider; an absent `requiresWebhook` is false.
pub record ProviderResult : Type 0 where
  pub success : Bool
  pub requires_webhook : Bool
  pub provider_ref : Option String
  pub raw_response : RawResponse

-- A call of a provider's library answers, or throws an error with a text.
pub data Answer (A : Type 0) : Type 0 where
  answered : A → Answer A
  thrown : String → Answer A

pub data IntentStatus : Type 0 where
  canceled requires_payment_method other_status : IntentStatus

pub record Intent : Type 0 where
  pub id : String
  pub status : IntentStatus
  pub body : String

pub record StripePayout : Type 0 where
  pub id : String
  pub body : String

pub record SaleRequest : Type 0 where
  pub amount : Decimal
  pub payment_method_nonce : String
  pub customer_id : Option String

pub record Sale : Type 0 where
  pub id : String
  pub customer_id : Option String

pub record SaleResult : Type 0 where
  pub success : Bool
  pub transaction : Option Sale
  pub body : String

pub record PayoutRequest : Type 0 where
  pub amount : Decimal
  pub currency : Currency
  pub receiver : String

pub record PayoutResponse : Type 0 where
  pub is_ok : Bool
  pub payout_batch_id : Option String
  pub body : String

-- The calls that the adapters make.
pub record Apis : Type 0 where
  pub retrieve_intent : String → Answer Intent
  pub create_stripe_payout : ℤ → Currency → String → Answer StripePayout
  pub sale : SaleRequest → Answer SaleResult
  pub access_token : Answer String
  pub post_payout : String → PayoutRequest → Answer PayoutResponse

-- `String(payload[key])`
abbrev pub text_of : Option String → String
text_of none = "undefined"
text_of (some s) = s

abbrev pub plain_response : String → RawResponse
plain_response body = record { customer_id = none; body = body }

abbrev pub rejected : String → ProviderResult
rejected body = record {
  success = false;
  requires_webhook = false;
  provider_ref = none;
  raw_response = plain_response body;
}

-- The provider has taken the request, and a webhook is to say how it ended.
abbrev pub accepted : Option String → String → ProviderResult
accepted ref body = record {
  success = true;
  requires_webhook = true;
  provider_ref = ref;
  raw_response = plain_response body;
}

abbrev intent_result : IntentStatus → String → String → ProviderResult
intent_result canceled id body = rejected body
intent_result requires_payment_method id body = rejected body
intent_result other_status id body = accepted (some id) body

-- `StripeProvider.confirmDeposit`
unfoldable pub stripe_confirm_deposit : Apis → Payload → ProviderResult
stripe_confirm_deposit api p = elim (api.retrieve_intent (text_of p.payment_intent_id)) [
  | answered intent ↦ intent_result intent.status intent.id intent.body
  | thrown error ↦ rejected error
]

-- `Math.round(amount * 100)`: ten-thousandths to cents, a half upwards. It is computed exactly here.
unfoldable pub cents : Decimal → ℤ
cents (pos a) = pos ((a + 50) / 100)
cents (negsuc a) = sub_ℕ 0 ((a + 50) / 100)

-- The cents that a payout at Stripe asks for are the nearest to its amount: of an amount that is not
-- negative they differ by half a cent at most, and a half is rounded upwards.
pub cents-nearest :
    (a : ℕ) → (pos_part (cents (pos a)) * 100 ≤ a + 50) × (a < pos_part (cents (pos a)) * 100 + 50)
unfolding cents
cents-nearest a = (omega arith, omega arith)

-- `StripeProvider.createPayout`
unfoldable pub stripe_create_payout : Apis → Payload → ProviderResult
unfolding cents
stripe_create_payout api p =
    elim (api.create_stripe_payout (cents p.amount) p.currency
      (text_of p.stripe_connected_account_id)) [
        | answered payout ↦ accepted (some payout.id) payout.body
        | thrown error ↦ rejected error
      ]

abbrev sale_result : Bool → Option Sale → String → ProviderResult
sale_result true (some t) body = record {
  success = true;
  requires_webhook = false;
  provider_ref = some t.id;
  raw_response = record { customer_id = t.customer_id; body = body };
}
sale_result true none body = rejected body
sale_result false t body = rejected body

-- `PaypalProvider.confirmDeposit`, a sale by Braintree.
unfoldable pub paypal_confirm_deposit : Apis → Payload → ProviderResult
paypal_confirm_deposit api p =
    elim (api.sale (record {
      amount = p.amount;
      payment_method_nonce = text_of p.nonce;
      customer_id = truthy p.customer_id;
    })) [ answered r ↦ sale_result r.success r.transaction r.body | thrown error ↦ rejected error ]

abbrev payout_result : Bool → Option String → String → ProviderResult
payout_result true batch_id body = accepted batch_id body
payout_result false batch_id body = rejected body

-- `PaypalProvider.createPayout`
unfoldable pub paypal_create_payout : Apis → Payload → ProviderResult
paypal_create_payout api p = elim api.access_token [
  | thrown error ↦ rejected error
  | answered token ↦
      elim (api.post_payout token
        (record { amount = p.amount; currency = p.currency; receiver = text_of p.paypal_email })) [
          | answered r ↦ payout_result r.is_ok r.payout_batch_id r.body
          | thrown error ↦ rejected error
        ]
]

unfoldable pub stripe_process : Apis → TransactionType → Payload → ProviderResult
unfolding stripe_confirm_deposit stripe_create_payout
stripe_process api deposit_type p = stripe_confirm_deposit api p
stripe_process api withdrawal_type p = stripe_create_payout api p
stripe_process api transfer_type p = rejected "Unsupported transaction type: TRANSFER"

unfoldable pub paypal_process : Apis → TransactionType → Payload → ProviderResult
unfolding paypal_confirm_deposit paypal_create_payout
paypal_process api deposit_type p = paypal_confirm_deposit api p
paypal_process api withdrawal_type p = paypal_create_payout api p
paypal_process api transfer_type p = rejected "Unsupported transaction type: TRANSFER"

-- `process` of each adapter, which the processor reaches through the registry. No adapter stands
-- for the provider `internal`.
unfoldable pub resolve_process :
    Apis → Provider → Option (TransactionType → Payload → ProviderResult)
unfolding stripe_process paypal_process
resolve_process api stripe = some (stripe_process api)
resolve_process api paypal = some (paypal_process api)
resolve_process api internal = none
