-- ===== src/Payment/Processor.antt =====
-- src/modules/payment/payment-processor.service.ts: the outbox consumer. The lock in Redis is a
-- flag of the state; that it lapses after fifteen minutes is not modelled.
use payment_wallet_system.Prelude.{
  Option, none, some, Bool, true, false, List, [], ◌∷◌, if◌then◌else◌,
}
use payment_wallet_system.Db.Schema.{
  Uuid, Provider, Transaction, TransactionType, Payload, OutboxEvent, Db,
}
use payment_wallet_system.Db.Tx.{Action, Result, ok, err, plain_error, no_adapter, with_transaction}
use payment_wallet_system.Db.Writes.{Stamp, find_transaction}
use payment_wallet_system.Payment.Providers.{ProviderResult, Apis, resolve_process}
use payment_wallet_system.Payment.Settlement.{TransactionContext, settle, fail}
use payment_wallet_system.Payment.Repository.{
  mark_delivered, increment_retry, find_pending_provider_events,
}

-- What the world gives to the handling of an event: the database's values for new rows, and the
-- answers of the providers.
pub record Env : Type 0 where
  pub stamp : Uuid → Stamp
  pub apis : Uuid → Apis

-- `{ ...transaction, userId }`
abbrev pub context : Transaction → Uuid → TransactionContext
context t user_id = record {
  id = t.id;
  type = t.type;
  status = t.status;
  amount = t.amount;
  currency = t.currency;
  provider = t.provider;
  sender_wallet_id = t.sender_wallet_id;
  receiver_wallet_id = t.receiver_wallet_id;
  user_id = user_id;
}

abbrev pub retry : Uuid → Action (Unit {0})
retry event_id = with_transaction (increment_retry event_id)

-- The branches on the provider's answer: `requiresWebhook`, then `success`.
unfoldable pub handle_result :
    Bool → Bool → Stamp → TransactionContext → Uuid → ProviderResult → Action (Unit {0})
handle_result true true s ctx event_id r = with_transaction (mark_delivered s.now event_id)
handle_result true false s ctx event_id r = fail s ctx event_id r
handle_result false true s ctx event_id r = settle s ctx event_id r
handle_result false false s ctx event_id r = fail s ctx event_id r

abbrev pub call_provider :
    Env
    → OutboxEvent
    → TransactionContext
    → Option (TransactionType → Payload → ProviderResult)
    → Action (Unit {0})
call_provider env e ctx none db = (err (plain_error no_adapter), db)
call_provider env e ctx (some call) db =
    let r = call ctx.type e.payload in
    handle_result r.requires_webhook r.success (env.stamp e.id) ctx e.id r db

abbrev pub with_provider :
    Env → OutboxEvent → TransactionContext → Option Provider → Action (Unit {0})
with_provider env e ctx none = retry e.id
with_provider env e ctx (some p) = call_provider env e ctx (resolve_process (env.apis e.id) p)

abbrev pub with_row : Env → OutboxEvent → Uuid → Option Transaction → Action (Unit {0})
with_row env e user_id none = retry e.id
with_row env e user_id (some t) = with_provider env e (context t user_id) t.provider

-- The `try` block of `processEvent`.
unfoldable pub attempt_for : Env → OutboxEvent → Option Uuid → Action (Unit {0})
attempt_for env e none db = retry e.id db
attempt_for env e (some user_id) db =
    with_row env e user_id (find_transaction e.transaction_id db) db

abbrev pub catch_retry : Uuid → Result (Unit {0}) × Db → Result (Unit {0}) × Db
catch_retry event_id (ok a, db) = (ok a, db)
catch_retry event_id (err x, db) = retry event_id db

unfoldable pub process_event : Env → OutboxEvent → Action (Unit {0})
unfolding attempt_for
process_event env e db = catch_retry e.id (attempt_for env e e.payload.user_id db)

abbrev pub go_on : (Db → Db) → Result (Unit {0}) × Db → Db
go_on rest (ok a, db) = rest db
go_on rest (err x, db) = db

-- One event after another; an error that leaves `processEvent` ends the batch.
unfoldable pub process_events : Env → List OutboxEvent → Db → Db
process_events env [] db = db
process_events env (e ∷ es) db = go_on (process_events env es) (process_event env e db)

pub record Worker : Type 0 where
  pub lock_held : Bool
  pub db : Db

-- `processOutbox`: nothing if another instance holds the lock; else a batch of at most 100 events
-- with fewer than 5 retries, after which the lock is free.
unfoldable pub process_outbox : Env → Worker → Worker
process_outbox env w = if w.lock_held then w else record {
  lock_held = false;
  db = process_events env (find_pending_provider_events 100 5 w.db) w.db;
}
