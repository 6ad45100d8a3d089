-- ===== src/Transaction/Statuses.antt =====
-- src/modules/transaction/transaction.repository.ts: the methods that settle a deposit, set a status
-- and keep the outbox, which nothing calls.
use payment_wallet_system.Prelude.{ℕ, ◌+◌, ◌&&◌, some, Bool, List, ltb, is_none}
use payment_wallet_system.Db.Schema.{
  Uuid, Time, Decimal, Currency, Transaction, TransactionStatus, settled, Payload, OutboxEvent,
  deposit_settled, credit, Db,
}
use payment_wallet_system.Db.Query.{find_many}
use payment_wallet_system.Db.Tx.{Tx, pure, ◌>>=◌, ◌>>◌}
use payment_wallet_system.Db.Writes.{
  Stamp, create_ledger_entry, create_outbox_event, update_transaction, update_outbox_event,
}
use payment_wallet_system.Transaction.{outbox_event, ledger_entry}

unfoldable pub settle_deposit :
    Stamp → Uuid → Uuid → Decimal → Currency → Decimal → Payload → Tx Transaction
unfolding update_transaction create_ledger_entry create_outbox_event
settle_deposit s transaction_id wallet_id amount currency available_balance_after payload = do
  t ←
      update_transaction transaction_id
        (λ t. record t { status = settled; settled_at = some s.now })
  create_ledger_entry (
      ledger_entry s.entry_id s.now wallet_id transaction_id credit amount currency
        available_balance_after)
  create_outbox_event (outbox_event s transaction_id deposit_settled payload)
  pure t

-- The time is set with the status `settled` only.
abbrev pub with_status : Time → TransactionStatus → Transaction → Transaction
with_status now settled t = record t { status = settled; settled_at = some now }
with_status now status t = record t { status = status }

unfoldable pub update_status : Time → Uuid → TransactionStatus → Tx (Unit {0})
unfolding update_transaction
update_status now transaction_id status = do
  t ← update_transaction transaction_id (with_status now status)
  pure tt

abbrev pub is_pending : OutboxEvent → Bool
is_pending e = is_none e.delivered_at && ltb e.retry_count 5

unfoldable pub find_pending_outbox_events : ℕ → Db → List OutboxEvent
unfolding find_many
find_pending_outbox_events limit db =
    find_many is_pending (λ a b. ltb a.created_at b.created_at) limit db.outbox

unfoldable pub mark_outbox_delivered : Time → Uuid → Tx (Unit {0})
unfolding update_outbox_event
mark_outbox_delivered now id = do
  e ← update_outbox_event id (λ e. record e { delivered_at = some now })
  pure tt

unfoldable pub increment_outbox_retry : Uuid → Tx (Unit {0})
unfolding update_outbox_event
increment_outbox_retry id = do
  e ← update_outbox_event id (λ e. record e { retry_count = e.retry_count + 1 })
  pure tt
