-- ===== src/Transaction/Service.antt =====
-- src/modules/transaction/transaction.service.ts: deposits, withdrawals, transfers and one query.
-- The audit log is not modelled.
use payment_wallet_system.Prelude.{
  Option, none, some, String, Bool, true, false, ◌||◌, ltb, ◌==◌, if◌then◌else◌,
}
use payment_wallet_system.Db.Schema.{
  Uuid, Time, Decimal, Currency, Transaction, TransactionType, TransactionStatus, Wallet, internal,
  Payload, Db,
}
use payment_wallet_system.Db.Tx.{
  Tx, Action, Result, ok, err, forbidden, bad_request, wallet_not_found, sender_wallet_not_found,
  recipient_wallet_not_found, transaction_not_found, transfer_to_yourself, or_throw, gets, pure,
  ensure, with_transaction, ◌>>=◌, ◌>>◌,
}
use payment_wallet_system.Db.Writes.{Stamp, find_key, find_transaction}
use payment_wallet_system.Wallet.{
  find_by_user_id, lock_wallet, assert_active, assert_currency_match, assert_sufficient_balance,
  credit_pending, debit_available_and_lock, debit_available, credit_available,
}
use payment_wallet_system.Transaction.{initiate_deposit, initiate_withdrawal, execute_transfer}

-- `DepositDto` and `WithdrawalDto`, which have the same fields.
pub record MoneyDto : Type 0 where
  pub amount : Decimal
  pub currency : Currency
  pub idempotency_key : Uuid
  pub description : Option String

pub record TransferDto : Type 0 where
  pub amount : Decimal
  pub currency : Currency
  pub idempotency_key : Uuid
  pub recipient_user_id : Uuid
  pub description : Option String

pub record TransactionResult : Type 0 where
  pub id : Uuid
  pub idempotency_key : Uuid
  pub type : TransactionType
  pub status : TransactionStatus
  pub amount : Decimal
  pub currency : Currency
  pub description : Option String
  pub created_at : Time
  pub settled_at : Option Time

pub record MutationResult : Type 0 where
  pub content : TransactionResult
  pub replayed : Bool

abbrev pub to_result : Transaction → TransactionResult
to_result t = record {
  id = t.id;
  idempotency_key = t.idempotency_key;
  type = t.type;
  status = t.status;
  amount = t.amount;
  currency = t.currency;
  description = t.description;
  created_at = t.created_at;
  settled_at = t.settled_at;
}

-- The payload `{ walletId, userId, amount, currency }`.
abbrev pub wallet_payload : Uuid → Uuid → Decimal → Currency → Payload
wallet_payload wallet_id user_id amount currency = record {
  wallet_id = some wallet_id;
  user_id = some user_id;
  sender_wallet_id = none;
  sender_user_id = none;
  receiver_wallet_id = none;
  receiver_user_id = none;
  amount = amount;
  currency = currency;
  payment_intent_id = none;
  nonce = none;
  customer_id = none;
  stripe_connected_account_id = none;
  paypal_email = none;
}

-- The payload of a transfer, which has no `walletId` and no `userId`.
abbrev pub transfer_payload : Uuid → Uuid → Uuid → Uuid → Decimal → Currency → Payload
transfer_payload sender_wallet_id sender_user_id receiver_wallet_id receiver_user_id a c = record {
  wallet_id = none;
  user_id = none;
  sender_wallet_id = some sender_wallet_id;
  sender_user_id = some sender_user_id;
  receiver_wallet_id = some receiver_wallet_id;
  receiver_user_id = some receiver_user_id;
  amount = a;
  currency = c;
  payment_intent_id = none;
  nonce = none;
  customer_id = none;
  stripe_connected_account_id = none;
  paypal_email = none;
}

-- What a new operation returns.
abbrev pub fresh : Result Transaction × Db → Result MutationResult × Db
fresh (ok t, db) = (ok (record { content = to_result t; replayed = false }), db)
fresh (err e, db) = (err e, db)

-- The check of the idempotency key, before the transaction of a new operation.
abbrev pub replay_or : Uuid → Tx Transaction → Action MutationResult
replay_or key operation db = elim (find_key key db) [
  | some existing ↦ (ok (record { content = to_result existing; replayed = true }), db)
  | none ↦ fresh (with_transaction operation db)
]

-- The callback of `deposit`.
unfoldable pub deposit_tx : Stamp → Uuid → MoneyDto → Tx Transaction
unfolding lock_wallet credit_pending initiate_deposit
deposit_tx s user_id dto = do
  wallet ← or_throw (← gets (find_by_user_id user_id)) (forbidden wallet_not_found)
  locked ← lock_wallet wallet.id
  assert_active locked
  assert_currency_match locked dto.currency
  pending_balance_after ← credit_pending locked.id dto.amount
  initiate_deposit s
      (record {
        idempotency_key = dto.idempotency_key;
        amount = dto.amount;
        currency = dto.currency;
        description = dto.description;
        sender_wallet_id = none;
        receiver_wallet_id = some locked.id;
        provider = some internal;
      })
      pending_balance_after (wallet_payload locked.id user_id dto.amount dto.currency)

unfoldable pub deposit : Stamp → Uuid → MoneyDto → Action MutationResult
unfolding deposit_tx
deposit s user_id dto = replay_or dto.idempotency_key (deposit_tx s user_id dto)

-- The callback of `withdraw`.
unfoldable pub withdraw_tx : Stamp → Uuid → MoneyDto → Tx Transaction
unfolding lock_wallet debit_available_and_lock initiate_withdrawal
withdraw_tx s user_id dto = do
  wallet ← or_throw (← gets (find_by_user_id user_id)) (forbidden wallet_not_found)
  locked ← lock_wallet wallet.id
  assert_active locked
  assert_currency_match locked dto.currency
  assert_sufficient_balance locked.available_balance dto.amount
  updated ← debit_available_and_lock locked.id dto.amount
  initiate_withdrawal s
      (record {
        idempotency_key = dto.idempotency_key;
        amount = dto.amount;
        currency = dto.currency;
        description = dto.description;
        sender_wallet_id = some locked.id;
        receiver_wallet_id = none;
        provider = some internal;
      })
      updated.locked_balance (wallet_payload locked.id user_id dto.amount dto.currency)

unfoldable pub withdraw : Stamp → Uuid → MoneyDto → Action MutationResult
unfolding withdraw_tx
withdraw s user_id dto = replay_or dto.idempotency_key (withdraw_tx s user_id dto)

-- The part of `transfer`'s callback after the two rows are locked.
unfoldable pub transfer_locked : Stamp → Uuid → Wallet → Wallet → TransferDto → Tx Transaction
unfolding debit_available credit_available
transfer_locked s user_id sender receiver dto = do
  assert_active sender
  assert_active receiver
  assert_currency_match sender dto.currency
  assert_currency_match receiver dto.currency
  assert_sufficient_balance sender.available_balance dto.amount
  sender_balance_after ← debit_available sender.id dto.amount
  receiver_balance_after ← credit_available receiver.id dto.amount
  execute_transfer s
      (record {
        idempotency_key = dto.idempotency_key;
        amount = dto.amount;
        currency = dto.currency;
        description = dto.description;
        sender_wallet_id = some sender.id;
        receiver_wallet_id = some receiver.id;
        provider = none;
      })
      sender_balance_after receiver_balance_after
      (transfer_payload sender.id user_id receiver.id dto.recipient_user_id dto.amount dto.currency)

-- The row with the lower id is locked first, whoever sends.
unfoldable pub lock_order : Uuid → Uuid → Uuid × Uuid
lock_order a b = if ltb a b then (a, b) else (b, a)

-- The callback of `transfer`, from the ids of the two wallets that were read before it.
unfoldable pub transfer_tx : Stamp → Uuid → Uuid → Uuid → TransferDto → Tx Transaction
unfolding lock_wallet lock_order
transfer_tx s user_id sender_id receiver_id dto = do
  let order = lock_order sender_id receiver_id
  first ← lock_wallet order.0
  second ← lock_wallet order.1
  transfer_locked s user_id (if first.id == sender_id then first else second)
      (if first.id == receiver_id then first else second) dto

-- The reads of the two wallets, and the transaction.
abbrev pub transfer_between : Stamp → Uuid → TransferDto → Tx Transaction
transfer_between s user_id dto = do
  sender ← or_throw (← gets (find_by_user_id user_id)) (forbidden sender_wallet_not_found)
  receiver ←
      or_throw (← gets (find_by_user_id dto.recipient_user_id))
        (forbidden recipient_wallet_not_found)
  transfer_tx s user_id sender.id receiver.id dto

unfoldable pub transfer : Stamp → Uuid → TransferDto → Action MutationResult
unfolding transfer_tx
transfer s user_id dto db =
    if user_id == dto.recipient_user_id
    then (err (bad_request transfer_to_yourself), db)
    else replay_or dto.idempotency_key (transfer_between s user_id dto) db

abbrev pub names_wallet : Uuid → Option Uuid → Bool
names_wallet id none = false
names_wallet id (some w) = w == id

unfoldable pub get_transaction : Uuid → Uuid → Tx TransactionResult
get_transaction user_id transaction_id = do
  wallet ← or_throw (← gets (find_by_user_id user_id)) (forbidden wallet_not_found)
  t ← or_throw (← gets (find_transaction transaction_id)) (forbidden transaction_not_found)
  ensure (names_wallet wallet.id t.sender_wallet_id || names_wallet wallet.id t.receiver_wallet_id)
      (forbidden transaction_not_found)
  pure (to_result t)
