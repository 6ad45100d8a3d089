-- ===== src/Payment/Service.antt =====
-- src/modules/payment/payment.service.ts: the deposits and payouts that a provider carries out.
use payment_wallet_system.Prelude.{String, Option, none, some}
use payment_wallet_system.Db.Schema.{
  Uuid, Decimal, Currency, Provider, stripe, paypal, internal, Transaction, TransactionStatus,
  deposit_type, withdrawal_type, initiated, Payload, deposit_initiated, withdrawal_initiated, User,
  Db,
}
use payment_wallet_system.Db.Tx.{
  Tx, Action, Result, ok, err, not_found, bad_request, plain_error, missing_value, wallet_not_found,
  no_connect_account, no_paypal_email, or_throw, gets, pure, with_transaction, ◌>>=◌, ◌>>◌,
}
use payment_wallet_system.Db.Writes.{
  find_user, Stamp, find_key, create_transaction, create_outbox_event,
}
use payment_wallet_system.Wallet.{
  find_by_user_id, lock_wallet, assert_active, assert_currency_match, assert_sufficient_balance,
  credit_pending, debit_available_and_lock,
}
use payment_wallet_system.Transaction.{outbox_event}
use payment_wallet_system.Transaction.Service.{wallet_payload}
use payment_wallet_system.Payment.Repository.{truthy}

pub record ConfirmDepositDto : Type 0 where
  pub provider : Provider
  pub amount : Decimal
  pub currency : Currency
  pub idempotency_key : Uuid
  pub description : Option String
  pub payment_intent_id : Option String
  pub nonce : Option String
  pub braintree_customer_id : Option String

pub record CreatePayoutDto : Type 0 where
  pub provider : Provider
  pub amount : Decimal
  pub currency : Currency
  pub idempotency_key : Uuid
  pub description : Option String

pub record PaymentResult : Type 0 where
  pub transaction_id : Uuid
  pub status : TransactionStatus

abbrev pub payment_result : Transaction → PaymentResult
payment_result t = record { transaction_id = t.id; status = t.status }

abbrev pub fresh_payment : Result Transaction × Db → Result PaymentResult × Db
fresh_payment (ok t, db) = (ok (payment_result t), db)
fresh_payment (err e, db) = (err e, db)

-- The check of the idempotency key, before the transaction of a new operation.
abbrev pub payment_replay_or : Uuid → Tx Transaction → Action PaymentResult
payment_replay_or key operation db = elim (find_key key db) [
  | some existing ↦ (ok (payment_result existing), db)
  | none ↦ fresh_payment (with_transaction operation db)
]

-- What `confirmDeposit` adds to the payload for each provider.
abbrev pub deposit_payload : Provider → ConfirmDepositDto → Payload → Payload
deposit_payload stripe dto p = record p { payment_intent_id = truthy dto.payment_intent_id }
deposit_payload paypal dto p = record p {
  nonce = truthy dto.nonce;
  customer_id = truthy dto.braintree_customer_id;
}
deposit_payload internal dto p = p

abbrev pub confirmed_row : Stamp → ConfirmDepositDto → Uuid → Transaction
confirmed_row s dto wallet_id = record {
  id = s.transaction_id;
  idempotency_key = dto.idempotency_key;
  type = deposit_type;
  status = initiated;
  amount = dto.amount;
  currency = dto.currency;
  description = dto.description;
  sender_wallet_id = none;
  receiver_wallet_id = some wallet_id;
  provider = some dto.provider;
  provider_ref = none;
  created_at = s.now;
  settled_at = none;
}

-- The callback of `confirmDeposit`.
unfoldable pub confirm_deposit_tx : Stamp → Uuid → ConfirmDepositDto → Tx Transaction
unfolding lock_wallet credit_pending create_transaction create_outbox_event
confirm_deposit_tx s user_id dto = do
  wallet ← or_throw (← gets (find_by_user_id user_id)) (not_found wallet_not_found)
  row ← lock_wallet wallet.id
  assert_active row
  assert_currency_match row dto.currency
  credit_pending row.id dto.amount
  let base = wallet_payload row.id user_id dto.amount dto.currency
  t ← create_transaction (confirmed_row s dto row.id)
  create_outbox_event
      (outbox_event s t.id deposit_initiated (deposit_payload dto.provider dto base))
  pure t

unfoldable pub confirm_deposit : Stamp → Uuid → ConfirmDepositDto → Action PaymentResult
unfolding confirm_deposit_tx
confirm_deposit s user_id dto =
    payment_replay_or dto.idempotency_key (confirm_deposit_tx s user_id dto)

abbrev pub connect_account_of : Option User → Option String
connect_account_of none = none
connect_account_of (some u) = truthy u.stripe_connect_account_id

-- `resolveStripeConnectAccount` and `resolvePaypalEmail`, and what they add to the payload.
unfoldable pub payout_payload : Provider → Uuid → Payload → Tx Payload
payout_payload stripe user_id p = do
  account ←
      or_throw (← gets (λ db. connect_account_of (find_user user_id db)))
        (bad_request no_connect_account)
  pure (record p { stripe_connected_account_id = some account })
payout_payload paypal user_id p = do
  user ← or_throw (← gets (find_user user_id)) (plain_error missing_value)
  email ← or_throw (truthy user.paypal_email) (bad_request no_paypal_email)
  pure (record p { paypal_email = some email })
payout_payload internal user_id p = pure p

abbrev pub payout_row : Stamp → CreatePayoutDto → Uuid → Transaction
payout_row s dto wallet_id = record {
  id = s.transaction_id;
  idempotency_key = dto.idempotency_key;
  type = withdrawal_type;
  status = initiated;
  amount = dto.amount;
  currency = dto.currency;
  description = dto.description;
  sender_wallet_id = some wallet_id;
  receiver_wallet_id = none;
  provider = some dto.provider;
  provider_ref = none;
  created_at = s.now;
  settled_at = none;
}

-- The callback of `createPayout`.
unfoldable pub create_payout_tx : Stamp → Uuid → CreatePayoutDto → Tx Transaction
unfolding lock_wallet debit_available_and_lock create_transaction create_outbox_event
create_payout_tx s user_id dto = do
  wallet ← or_throw (← gets (find_by_user_id user_id)) (not_found wallet_not_found)
  row ← lock_wallet wallet.id
  assert_active row
  assert_currency_match row dto.currency
  assert_sufficient_balance row.available_balance dto.amount
  debit_available_and_lock row.id dto.amount
  payload ←
      payout_payload dto.provider user_id (wallet_payload row.id user_id dto.amount dto.currency)
  t ← create_transaction (payout_row s dto row.id)
  create_outbox_event (outbox_event s t.id withdrawal_initiated payload)
  pure t

unfoldable pub create_payout : Stamp → Uuid → CreatePayoutDto → Action PaymentResult
unfolding create_payout_tx
create_payout s user_id dto = payment_replay_or dto.idempotency_key (create_payout_tx s user_id dto)
