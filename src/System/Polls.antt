-- ===== src/System/Polls.antt =====
-- src/modules/payment/payment-processor.service.ts: what the outbox processor commits.
use payment_wallet_system.Prelude.{
  ◌≡◌, refl, some, none, Option, List, [], ◌∷◌, Bool, true, false, inl, inr, Bool-cases,
}
use payment_wallet_system.Db.Schema.{
  Uuid, Transaction, TransactionType, Payload, OutboxEvent, Provider, Db,
}
use payment_wallet_system.Db.Tx.{Result, ok, err}
use payment_wallet_system.Db.Writes.{Stamp, find_transaction}
use payment_wallet_system.Db.Table.{find_unique_self}
use payment_wallet_system.Payment.Providers.{ProviderResult}
use payment_wallet_system.Payment.Settlement.{TransactionContext, settle, fail, settle_tx, fail_tx}
use payment_wallet_system.Payment.Repository.{
  mark_delivered, increment_retry, find_pending_provider_events,
}
use payment_wallet_system.Payment.Processor.{
  Env, Worker, context, retry, catch_retry, handle_result, with_row, with_provider, call_provider,
  attempt_for, process_event, go_on, process_events, process_outbox,
}
use payment_wallet_system.Books.Resolving.{Describes}
use payment_wallet_system.System.Steps.{Reach, here, Reach-trans, settles, fails, delivers, retries}
use payment_wallet_system.System.Runs.{with_transaction-Reach}

retry-Reach : (id : Uuid) (db : Db) → Reach db (retry id db).1
retry-Reach id db = with_transaction-Reach (increment_retry id) db _ refl (λ a db' e. retries id e)

handle_result-Reach :
    (hook good : Bool) (s : Stamp) (ctx : TransactionContext) (event_id : Uuid) (r : ProviderResult)
    (old : Transaction) (db : Db)
    → find_transaction ctx.id db ≡ some old
    → Describes ctx old
    → Reach db (handle_result hook good s ctx event_id r db).1
unfolding handle_result settle fail
handle_result-Reach true true s ctx event_id r old db f same =
    with_transaction-Reach (mark_delivered s.now event_id) db _ refl
      (λ a db' e. delivers s.now event_id e)
handle_result-Reach true false s ctx event_id r old db f same =
    with_transaction-Reach (fail_tx ctx.type s ctx event_id r) db _ refl
      (λ a db' e. fails s ctx event_id r old f same e)
handle_result-Reach false true s ctx event_id r old db f same =
    with_transaction-Reach (settle_tx ctx.type s ctx event_id r) db _ refl
      (λ a db' e. settles s ctx event_id r old f same e)
handle_result-Reach false false s ctx event_id r old db f same =
    with_transaction-Reach (fail_tx ctx.type s ctx event_id r) db _ refl
      (λ a db' e. fails s ctx event_id r old f same e)

pub context-Describes : (t : Transaction) (u : Uuid) → Describes (context t u) t
context-Describes t u = record {
  same_type = refl;
  same_amount = refl;
  same_sender = refl;
  same_receiver = refl;
}

call_provider-Reach :
    (env : Env) (e : OutboxEvent) (t : Transaction) (u : Uuid)
    (call : Option (TransactionType → Payload → ProviderResult)) (db : Db)
    → find_transaction t.id db ≡ some t
    → Reach db (call_provider env e (context t u) call db).1
call_provider-Reach env e t u none db f = here
call_provider-Reach env e t u (some call) db f =
    handle_result-Reach _ _ (env.stamp e.id) (context t u) e.id _ t db f (context-Describes t u)

with_provider-Reach :
    (env : Env) (e : OutboxEvent) (t : Transaction) (u : Uuid) (p : Option Provider) (db : Db)
    → find_transaction t.id db ≡ some t
    → Reach db (with_provider env e (context t u) p db).1
with_provider-Reach env e t u none db f = retry-Reach e.id db
with_provider-Reach env e t u (some p) db f = call_provider-Reach env e t u _ db f

with_row-Reach :
    (env : Env) (e : OutboxEvent) (u : Uuid) (o : Option Transaction) (db : Db)
    → find_transaction e.transaction_id db ≡ o
    → Reach db (with_row env e u o db).1
with_row-Reach env e u none db f = retry-Reach e.id db
with_row-Reach env e u (some t) db f =
    with_provider-Reach env e t u t.provider db
      (find_unique_self (λ v. v.id) e.transaction_id db.transactions t f)

attempt_for-Reach :
    (env : Env) (e : OutboxEvent) (u : Option Uuid) (db : Db) → Reach db (attempt_for env e u db).1
unfolding attempt_for
attempt_for-Reach env e none db = retry-Reach e.id db
attempt_for-Reach env e (some u) db = with_row-Reach env e u _ db refl

catch_retry-Reach :
    (id : Uuid) (db : Db) (p : Result (Unit {0}) × Db)
    → Reach db p.1
    → Reach db (catch_retry id p).1
catch_retry-Reach id db (ok a, mid) h = h
catch_retry-Reach id db (err x, mid) h = Reach-trans h (retry-Reach id mid)

pub process_event-Reach :
    (env : Env) (e : OutboxEvent) (db : Db) → Reach db (process_event env e db).1
unfolding process_event
process_event-Reach env e db =
    catch_retry-Reach e.id db (attempt_for env e e.payload.user_id db)
      (attempt_for-Reach env e e.payload.user_id db)

go_on-Reach :
    (rest : Db → Db) (p : Result (Unit {0}) × Db) {db : Db}
    → ((mid : Db) → Reach mid (rest mid))
    → Reach db p.1
    → Reach db (go_on rest p)
go_on-Reach rest (ok a, mid) h r = Reach-trans r (h mid)
go_on-Reach rest (err x, mid) h r = r

pub process_events-Reach :
    (env : Env) (es : List OutboxEvent) (db : Db) → Reach db (process_events env es db)
unfolding process_events
process_events-Reach env [] db = here
process_events-Reach env (e ∷ es) db =
    go_on-Reach (process_events env es) (process_event env e db) (process_events-Reach env es)
      (process_event-Reach env e db)

pub process_outbox-Reach : (env : Env) (w : Worker) → Reach w.db (process_outbox env w).db
unfolding process_outbox
process_outbox-Reach env w = elim (Bool-cases w.lock_held) [
  | inl taken ↦ rw taken here
  | inr free ↦ rw free (process_events-Reach env (find_pending_provider_events 100 5 w.db) w.db)
]
