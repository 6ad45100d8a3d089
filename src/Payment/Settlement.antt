-- ===== src/Payment/Settlement.antt =====
-- src/modules/payment/payment-settlement.service.ts: a transaction is settled or failed, in one
-- database transaction. What the log lines and the audit log record is not modelled.
use payment_wallet_system.Prelude.{String, Option, none, some}
use payment_wallet_system.Prelude.Int.{◌+ℤ◌, ◌-ℤ◌}
use payment_wallet_system.Db.Schema.{
  Uuid, Decimal, Currency, Provider, paypal, TransactionType, deposit_type, withdrawal_type,
  transfer_type, TransactionStatus, settled, failed, EntryDirection, credit, debit,
}
use payment_wallet_system.Db.Tx.{
  Tx, Action, unprocessable, database_error, unsupported_type, missing_value, or_throw, throw, pure,
  with_transaction, ◌>>=◌, ◌>>◌,
}
use payment_wallet_system.Db.Writes.{Stamp, update_wallet, update_transaction, create_ledger_entry}
use payment_wallet_system.Wallet.{settle_pending, settle_withdrawal}
use payment_wallet_system.Transaction.{ledger_entry}
use payment_wallet_system.Payment.Providers.{ProviderResult}
use payment_wallet_system.Payment.Repository.{
  truthy, mark_delivered, create_payment_log, set_provider_ref, upsert_braintree_customer_id,
}

pub record TransactionContext : Type 0 where
  pub id : Uuid
  pub type : TransactionType
  pub status : TransactionStatus
  pub amount : Decimal
  pub currency : Currency
  pub provider : Option Provider
  pub sender_wallet_id : Option Uuid
  pub receiver_wallet_id : Option Uuid
  pub user_id : Uuid

-- Stamps the provider's reference on the transaction, if there is one.
abbrev pub stamp_ref : Uuid → Option String → Tx (Unit {0})
stamp_ref id none = pure tt
stamp_ref id (some r) = set_provider_ref id r

abbrev pub remember_customer : Option Provider → Uuid → Option String → Tx (Unit {0})
remember_customer (some paypal) user_id (some c) = upsert_braintree_customer_id user_id c
remember_customer _ user_id _ = pure tt

-- What every path ends with: `createPaymentLog` and `markDelivered`.
unfoldable pub record_outcome :
    Stamp → TransactionContext → Uuid → ProviderResult → TransactionStatus → Tx (Unit {0})
unfolding create_payment_log mark_delivered
record_outcome s ctx event_id result status = do
  provider ← or_throw ctx.provider (database_error missing_value)
  create_payment_log s ctx.id provider result.provider_ref result.raw_response status
  mark_delivered s.now event_id

-- The end of `settleDeposit`, which also keeps the customer that Braintree has vaulted.
unfoldable pub finish_deposit : Stamp → TransactionContext → Uuid → ProviderResult → Tx (Unit {0})
unfolding record_outcome upsert_braintree_customer_id
finish_deposit s ctx event_id result = do
  record_outcome s ctx event_id result settled
  remember_customer ctx.provider ctx.user_id (truthy result.raw_response.customer_id)

-- The part that `settleDeposit` and `settleWithdrawal` share: the reference, the status, and the
-- ledger entry.
unfoldable pub mark_settled :
    Stamp → TransactionContext → Uuid → EntryDirection → Decimal → ProviderResult → Tx (Unit {0})
unfolding set_provider_ref update_transaction create_ledger_entry
mark_settled s ctx wallet_id direction balance_after result = do
  stamp_ref ctx.id (truthy result.provider_ref)
  update_transaction ctx.id (λ t. record t { status = settled; settled_at = some s.now })
  create_ledger_entry (
      ledger_entry s.entry_id s.now wallet_id ctx.id direction ctx.amount ctx.currency
        balance_after)
  pure tt

-- `settleDeposit`
unfoldable pub settle_deposit : Stamp → TransactionContext → Uuid → ProviderResult → Tx (Unit {0})
unfolding settle_pending
settle_deposit s ctx event_id result = do
  wallet_id ← or_throw ctx.receiver_wallet_id (database_error missing_value)
  available_balance_after ← settle_pending wallet_id ctx.amount
  mark_settled s ctx wallet_id credit available_balance_after result
  finish_deposit s ctx event_id result

-- `settleWithdrawal`
unfoldable pub settle_locked : Stamp → TransactionContext → Uuid → ProviderResult → Tx (Unit {0})
unfolding settle_withdrawal
settle_locked s ctx event_id result = do
  wallet_id ← or_throw ctx.sender_wallet_id (database_error missing_value)
  locked_balance_after ← settle_withdrawal wallet_id ctx.amount
  mark_settled s ctx wallet_id debit locked_balance_after result
  record_outcome s ctx event_id result settled

-- `failDeposit`
unfoldable pub fail_deposit : Stamp → TransactionContext → Uuid → ProviderResult → Tx (Unit {0})
unfolding update_wallet update_transaction
fail_deposit s ctx event_id result = do
  wallet_id ← or_throw ctx.receiver_wallet_id (database_error missing_value)
  update_wallet wallet_id (λ w. record w { pending_balance = w.pending_balance -ℤ ctx.amount })
  update_transaction ctx.id (λ t. record t { status = failed })
  record_outcome s ctx event_id result failed

-- `failWithdrawal`
unfoldable pub fail_locked : Stamp → TransactionContext → Uuid → ProviderResult → Tx (Unit {0})
unfolding update_wallet update_transaction
fail_locked s ctx event_id result = do
  wallet_id ← or_throw ctx.sender_wallet_id (database_error missing_value)
  update_wallet wallet_id λ w. record w {
    locked_balance = w.locked_balance -ℤ ctx.amount;
    available_balance = w.available_balance +ℤ ctx.amount;
  }
  update_transaction ctx.id (λ t. record t { status = failed })
  record_outcome s ctx event_id result failed

-- `settle` and `fail` branch on the type of the transaction.
unfoldable pub settle_tx :
    TransactionType → Stamp → TransactionContext → Uuid → ProviderResult → Tx (Unit {0})
settle_tx deposit_type s ctx event_id result = settle_deposit s ctx event_id result
settle_tx withdrawal_type s ctx event_id result = settle_locked s ctx event_id result
settle_tx transfer_type s ctx event_id result = throw (unprocessable unsupported_type)

unfoldable pub fail_tx :
    TransactionType → Stamp → TransactionContext → Uuid → ProviderResult → Tx (Unit {0})
fail_tx deposit_type s ctx event_id result = fail_deposit s ctx event_id result
fail_tx withdrawal_type s ctx event_id result = fail_locked s ctx event_id result
fail_tx transfer_type s ctx event_id result = throw (unprocessable unsupported_type)

unfoldable pub settle : Stamp → TransactionContext → Uuid → ProviderResult → Action (Unit {0})
unfolding settle_tx
settle s ctx event_id result = with_transaction (settle_tx ctx.type s ctx event_id result)

unfoldable pub fail : Stamp → TransactionContext → Uuid → ProviderResult → Action (Unit {0})
unfolding fail_tx
fail s ctx event_id result = with_transaction (fail_tx ctx.type s ctx event_id result)
