-- ===== src/Transaction.antt =====
-- src/modules/transaction: the atomic flows of the repository that the service calls.
pub mod Service
pub mod History
pub mod Statuses
use payment_wallet_system.Prelude.{Option, none, some, String}
use payment_wallet_system.Db.Schema.{
  Uuid, Decimal, Time, Currency, Transaction, LedgerEntry, EntryDirection, credit, debit, Provider,
  internal, deposit_type, withdrawal_type, transfer_type, TransactionStatus, initiated, settled,
  Payload, OutboxEvent, EventType, deposit_initiated, deposit_settled, withdrawal_initiated,
  transfer_settled,
}
use payment_wallet_system.Db.Tx.{Tx, database_error, missing_value, or_throw, pure, ◌>>=◌, ◌>>◌}
use payment_wallet_system.Db.Writes.{
  Stamp, create_transaction, create_ledger_entry, create_outbox_event, update_transaction,
}

-- The fields of `CreateTransactionInput` that the repository reads.
pub record CreateTransactionInput : Type 0 where
  pub idempotency_key : Uuid
  pub amount : Decimal
  pub currency : Currency
  pub description : Option String
  pub sender_wallet_id : Option Uuid
  pub receiver_wallet_id : Option Uuid
  pub provider : Option Provider

-- The event that every flow writes last, undelivered and with no retries.
abbrev pub outbox_event : Stamp → Uuid → EventType → Payload → OutboxEvent
outbox_event s transaction_id event_type payload = record {
  id = s.event_id;
  transaction_id = transaction_id;
  event_type = event_type;
  payload = payload;
  delivered_at = none;
  retry_count = 0;
  created_at = s.now;
}

abbrev pub ledger_entry :
    Uuid → Time → Uuid → Uuid → EntryDirection → Decimal → Currency → Decimal → LedgerEntry
ledger_entry id now wallet_id transaction_id direction amount currency balance_after = record {
  id = id;
  wallet_id = wallet_id;
  transaction_id = transaction_id;
  direction = direction;
  amount = amount;
  currency = currency;
  balance_after = balance_after;
  created_at = now;
}

-- The row that `initiateDeposit` creates.
abbrev pub deposit_row : Stamp → CreateTransactionInput → Transaction
deposit_row s input = record {
  id = s.transaction_id;
  idempotency_key = input.idempotency_key;
  type = deposit_type;
  status = initiated;
  amount = input.amount;
  currency = input.currency;
  description = input.description;
  sender_wallet_id = none;
  receiver_wallet_id = input.receiver_wallet_id;
  provider = input.provider;
  provider_ref = none;
  created_at = s.now;
  settled_at = none;
}

unfoldable pub initiate_deposit :
    Stamp → CreateTransactionInput → Decimal → Payload → Tx Transaction
unfolding create_transaction create_ledger_entry create_outbox_event
initiate_deposit s input pending_balance_after payload = do
  t ← create_transaction (deposit_row s input)
  wallet_id ← or_throw input.receiver_wallet_id (database_error missing_value)
  create_ledger_entry (
      ledger_entry s.entry_id s.now wallet_id t.id credit input.amount input.currency
        pending_balance_after)
  create_outbox_event (outbox_event s t.id deposit_initiated payload)
  pure t

-- The row that `initiateWithdrawal` creates.
abbrev pub withdrawal_row : Stamp → CreateTransactionInput → Transaction
withdrawal_row s input = record {
  id = s.transaction_id;
  idempotency_key = input.idempotency_key;
  type = withdrawal_type;
  status = initiated;
  amount = input.amount;
  currency = input.currency;
  description = input.description;
  sender_wallet_id = input.sender_wallet_id;
  receiver_wallet_id = none;
  provider = input.provider;
  provider_ref = none;
  created_at = s.now;
  settled_at = none;
}

unfoldable pub initiate_withdrawal :
    Stamp → CreateTransactionInput → Decimal → Payload → Tx Transaction
unfolding create_transaction create_ledger_entry create_outbox_event
initiate_withdrawal s input locked_balance_after payload = do
  t ← create_transaction (withdrawal_row s input)
  wallet_id ← or_throw input.sender_wallet_id (database_error missing_value)
  create_ledger_entry (
      ledger_entry s.entry_id s.now wallet_id t.id debit input.amount input.currency
        locked_balance_after)
  create_outbox_event (outbox_event s t.id withdrawal_initiated payload)
  pure t

-- The row that `executeTransfer` creates: settled at once, with the internal provider.
abbrev pub transfer_row : Stamp → CreateTransactionInput → Transaction
transfer_row s input = record {
  id = s.transaction_id;
  idempotency_key = input.idempotency_key;
  type = transfer_type;
  status = settled;
  amount = input.amount;
  currency = input.currency;
  description = input.description;
  sender_wallet_id = input.sender_wallet_id;
  receiver_wallet_id = input.receiver_wallet_id;
  provider = some internal;
  provider_ref = none;
  created_at = s.now;
  settled_at = some s.now;
}

unfoldable pub execute_transfer :
    Stamp → CreateTransactionInput → Decimal → Decimal → Payload → Tx Transaction
unfolding create_transaction create_ledger_entry create_outbox_event
execute_transfer s input sender_balance_after receiver_balance_after payload = do
  t ← create_transaction (transfer_row s input)
  sender_id ← or_throw input.sender_wallet_id (database_error missing_value)
  create_ledger_entry (
      ledger_entry s.entry_id s.now sender_id t.id debit input.amount input.currency
        sender_balance_after)
  receiver_id ← or_throw input.receiver_wallet_id (database_error missing_value)
  create_ledger_entry (
      ledger_entry s.second_entry_id s.now receiver_id t.id credit input.amount input.currency
        receiver_balance_after)
  create_outbox_event (outbox_event s t.id transfer_settled payload)
  pure t
