-- ===== src/Delivery/Answers.antt =====
-- src/modules/payment/payment-processor.service.ts: an event that its provider answers at once.
use payment_wallet_system.Prelude.{
  ◌≡◌, refl, sym, ap, ◌∙◌, some, true, false, Bool, ==_refl, if◌then◌else◌, subst,
}
use payment_wallet_system.Db.Schema.{
  Uuid, Time, Transaction, TransactionType, TransactionStatus, settled, failed, OutboxEvent,
  Payload, Provider, Db,
}
use payment_wallet_system.Db.Table.{find_unique-replace, find_unique-column, find_unique_self}
use payment_wallet_system.Db.Tx.{Result, ok, with_transaction}
use payment_wallet_system.Db.Writes.{Stamp, find_transaction}
use payment_wallet_system.Payment.Providers.{ProviderResult, resolve_process}
use payment_wallet_system.Payment.Settlement.{TransactionContext, settle, fail}
use payment_wallet_system.Payment.Processor.{
  Env, context, catch_retry, handle_result, call_provider, with_provider, with_row, attempt_for,
  process_event,
}
use payment_wallet_system.Books.Resolving.{Describes, Resolves}
use payment_wallet_system.Books.Soundness.{IsSound}
use payment_wallet_system.System.Changes.{settle_tx-Resolves, fail_tx-Resolves}
use payment_wallet_system.System.Polls.{context-Describes}
use payment_wallet_system.Delivery.Progress.{Delivered, IsReady, CustomerFree}
use payment_wallet_system.Delivery.Completion.{HasRoom, settle_tx-completes, fail_tx-completes}

-- The call has ended the transaction with the status, and its event is delivered.
abbrev pub EndsWith : TransactionStatus → Time → Uuid → Uuid → Result (Unit {0}) × Db → Type 0
EndsWith status now event_id id p =
    (db' : Db) × (t : Transaction) × (p ≡ (ok tt, db'))
    × (find_transaction id db' ≡ some t)
    × (t.status ≡ status)
    × Delivered now event_id db'

resolved_row :
    (id : Uuid) (db db' : Db) (old new : Transaction)
    → Resolves id db old new db'
    → find_transaction id db' ≡ some new
resolved_row id db db' old new r = rw r.written (
    rw
      (find_unique-replace (λ v. v.id) id id new old db.transactions
        (r.same_id ∙ find_unique-column (λ v. v.id) id db.transactions old r.found) r.found)
      (rw (==_refl id) refl))

settles_at_once :
    (s : Stamp) (ctx : TransactionContext) (event_id : Uuid) (r : ProviderResult)
    (old : Transaction) (db : Db)
    → IsSound db
    → find_transaction ctx.id db ≡ some old
    → Describes ctx old
    → IsReady s ctx event_id db
    → HasRoom ctx db
    → CustomerFree ctx.user_id r db
    → EndsWith settled s.now event_id ctx.id (catch_retry event_id (settle s ctx event_id r db))
unfolding settle
settles_at_once s ctx event_id r old db sound f same h room free =
    let (db', done, delivered) =
      settle_tx-completes ctx.type s ctx event_id r db refl h room free in
    let (new, status, res) =
      settle_tx-Resolves ctx.type s ctx event_id r old db db' refl f same done sound in
    (
      db',
      new,
      (rw (done, with_transaction, catch_retry) refl),
      resolved_row ctx.id db db' old new res,
      status,
      delivered,
    )

fails_at_once :
    (s : Stamp) (ctx : TransactionContext) (event_id : Uuid) (r : ProviderResult)
    (old : Transaction) (db : Db)
    → IsSound db
    → find_transaction ctx.id db ≡ some old
    → Describes ctx old
    → IsReady s ctx event_id db
    → HasRoom ctx db
    → EndsWith failed s.now event_id ctx.id (catch_retry event_id (fail s ctx event_id r db))
unfolding fail
fails_at_once s ctx event_id r old db sound f same h room =
    let (db', done, delivered) = fail_tx-completes ctx.type s ctx event_id r db refl h room in
    let (new, status, res) =
      fail_tx-Resolves ctx.type s ctx event_id r old db db' refl f same done sound in
    (
      db',
      new,
      (rw (done, with_transaction, catch_retry) refl),
      resolved_row ctx.id db db' old new res,
      status,
      delivered,
    )

handled_at_once :
    (hook good : Bool) (s : Stamp) (ctx : TransactionContext) (event_id : Uuid) (r : ProviderResult)
    (old : Transaction) (db : Db)
    → hook ≡ false
    → IsSound db
    → find_transaction ctx.id db ≡ some old
    → Describes ctx old
    → IsReady s ctx event_id db
    → HasRoom ctx db
    → CustomerFree ctx.user_id r db
    → EndsWith
        (if good then settled else failed)
        s.now
        event_id
        ctx.id
        (catch_retry event_id (handle_result hook good s ctx event_id r db))
unfolding handle_result
handled_at_once false true s ctx event_id r old db k sound f same h room free =
    settles_at_once s ctx event_id r old db sound f same h room free
handled_at_once false false s ctx event_id r old db k sound f same h room free =
    fails_at_once s ctx event_id r old db sound f same h room
handled_at_once true good s ctx event_id r old db k sound f same h room free = cc

-- In sound books, an event whose provider answers at once ends its transaction: settled if the
-- provider's answer is a success, failed if not, with the event marked as delivered. The event names
-- its user, its transaction is there with a provider that has an adapter, the new ids are new and no
-- payment log of the transaction exists, no balance leaves its column's range, and the customer that
-- the answer may name is no other user's.
pub answered_event-ends :
    (env : Env) (e : OutboxEvent) (t : Transaction) (u : Uuid) (p : Provider)
    (call : TransactionType → Payload → ProviderResult) (db : Db)
    → IsSound db
    → e.payload.user_id ≡ some u
    → find_transaction e.transaction_id db ≡ some t
    → t.provider ≡ some p
    → resolve_process (env.apis e.id) p ≡ some call
    → (call t.type e.payload).requires_webhook ≡ false
    → IsReady (env.stamp e.id) (context t u) e.id db
    → HasRoom (context t u) db
    → CustomerFree u (call t.type e.payload) db
    → EndsWith
        (if (call t.type e.payload).success then settled else failed)
        (env.stamp e.id).now
        e.id
        t.id
        (process_event env e db)
unfolding process_event attempt_for
answered_event-ends env e t u p call db sound q f has c hook h room free =
    let r = call t.type e.payload in
    subst (EndsWith (if r.success then settled else failed) (env.stamp e.id).now e.id t.id)
      (sym (
        ap (λ o. catch_retry e.id (attempt_for env e o db)) q
        ∙ ap (λ o. catch_retry e.id (with_row env e u o db)) f
        ∙ ap (λ o. catch_retry e.id (with_provider env e (context t u) o db)) has
        ∙ ap (λ o. catch_retry e.id (call_provider env e (context t u) o db)) c))
      (handled_at_once r.requires_webhook r.success (env.stamp e.id) (context t u) e.id r t db hook
        sound (find_unique_self (λ v. v.id) e.transaction_id db.transactions t f)
        (context-Describes t u) h room free)
