-- ===== src/Db/Writes.antt =====
-- The writes of single rows, with the constraints of prisma/schema.prisma: primary keys, unique
-- columns, and the range of a Decimal(18, 4) column. A foreign key that the code writes is that of
-- a row which the same callback has read or created.
use payment_wallet_system.Prelude.{◌+◌, ◌^◌, ◌++◌, Option, Bool, ◌&&◌, [], ◌∷◌, ltb, is_none}
use payment_wallet_system.Prelude.Int.{pos_part, neg_part}
use payment_wallet_system.Db.Schema.{
  Uuid, Time, Decimal, User, Wallet, Transaction, LedgerEntry, PaymentLog, OutboxEvent, Db,
}
use payment_wallet_system.Db.Table.{find_unique, replace}
use payment_wallet_system.Db.Tx.{
  Tx, unique_violation, record_not_found, numeric_overflow, database_error, pure, gets, or_throw,
  modify, ensure, ◌>>=◌, ◌>>◌,
}

-- What the database generates for the rows that one call creates: `uuid()` and `now()`.
pub record Stamp : Type 0 where
  pub now : Time
  pub transaction_id : Uuid
  pub entry_id : Uuid
  pub second_entry_id : Uuid
  pub event_id : Uuid
  pub log_id : Uuid

-- A Decimal(18, 4) has fourteen digits before the point.
unfoldable pub fits : Decimal → Bool
fits a = ltb (pos_part a + neg_part a) (10 ^ 18)

abbrev pub find_user : Uuid → Db → Option User
find_user id db = find_unique (λ u. u.id) id db.users

abbrev pub find_wallet : Uuid → Db → Option Wallet
find_wallet id db = find_unique (λ w. w.id) id db.wallets

abbrev pub find_transaction : Uuid → Db → Option Transaction
find_transaction id db = find_unique (λ t. t.id) id db.transactions

abbrev pub find_key : Uuid → Db → Option Transaction
find_key key db = find_unique (λ t. t.idempotency_key) key db.transactions

abbrev pub find_log : Uuid → Db → Option PaymentLog
find_log id db = find_unique (λ l. l.transaction_id) id db.payment_logs

abbrev pub find_event : Uuid → Db → Option OutboxEvent
find_event id db = find_unique (λ e. e.id) id db.outbox

-- `wallet.update({ where: { id }, data })`, which returns the new row.
unfoldable pub update_wallet : Uuid → (Wallet → Wallet) → Tx Wallet
update_wallet id change = do
  w ← or_throw (← gets (find_wallet id)) (database_error record_not_found)
  let w' = change w
  ensure (fits w'.available_balance && fits w'.locked_balance && fits w'.pending_balance)
      (database_error numeric_overflow)
  modify (λ db. record db { wallets = replace (λ v. v.id) id w' db.wallets })
  pure w'

unfoldable pub update_transaction : Uuid → (Transaction → Transaction) → Tx Transaction
update_transaction id change = do
  t ← or_throw (← gets (find_transaction id)) (database_error record_not_found)
  let t' = change t
  modify (λ db. record db { transactions = replace (λ u. u.id) id t' db.transactions })
  pure t'

unfoldable pub update_outbox_event : Uuid → (OutboxEvent → OutboxEvent) → Tx OutboxEvent
update_outbox_event id change = do
  e ← or_throw (← gets (find_event id)) (database_error record_not_found)
  let e' = change e
  modify (λ db. record db { outbox = replace (λ v. v.id) id e' db.outbox })
  pure e'

unfoldable pub create_transaction : Transaction → Tx Transaction
create_transaction t = do
  ensure (fits t.amount) (database_error numeric_overflow)
  ensure (is_none (← gets (find_transaction t.id))) (database_error unique_violation)
  ensure (is_none (← gets (find_key t.idempotency_key))) (database_error unique_violation)
  modify (λ db. record db { transactions = db.transactions ++ t ∷ [] })
  pure t

unfoldable pub create_ledger_entry : LedgerEntry → Tx LedgerEntry
create_ledger_entry e = do
  ensure (fits e.amount && fits e.balance_after) (database_error numeric_overflow)
  ensure (is_none (← gets (λ db. find_unique (λ l. l.id) e.id db.ledger)))
      (database_error unique_violation)
  modify (λ db. record db { ledger = db.ledger ++ e ∷ [] })
  pure e

unfoldable pub create_outbox_event : OutboxEvent → Tx OutboxEvent
create_outbox_event e = do
  ensure (is_none (← gets (find_event e.id))) (database_error unique_violation)
  modify (λ db. record db { outbox = db.outbox ++ e ∷ [] })
  pure e

unfoldable pub insert_payment_log : PaymentLog → Tx PaymentLog
insert_payment_log l = do
  ensure (is_none (← gets (λ db. find_unique (λ m. m.id) l.id db.payment_logs)))
      (database_error unique_violation)
  ensure (is_none (← gets (find_log l.transaction_id))) (database_error unique_violation)
  modify (λ db. record db { payment_logs = db.payment_logs ++ l ∷ [] })
  pure l
