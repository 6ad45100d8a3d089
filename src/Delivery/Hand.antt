-- ===== src/Delivery/Hand.antt =====
-- src/modules/payment/payment-processor.service.ts and the registry: an event whose provider answers
-- later, or has no adapter.
use payment_wallet_system.Prelude.{
  ◌≡◌, refl, ap, ◌∙◌, some, none, true, ◌⊎◌, inl, inr, arith, Option, Bool-cases,
}
use payment_wallet_system.Db.Schema.{
  Uuid, Transaction, TransactionType, deposit_type, withdrawal_type, transfer_type, stripe,
  internal, OutboxEvent, Payload, Db,
}
use payment_wallet_system.Db.Tx.{Result, ok, err, with_transaction}
use payment_wallet_system.Db.Writes.{Stamp, find_transaction}
use payment_wallet_system.Payment.Providers.{ProviderResult, Apis, resolve_process, stripe_process}
use payment_wallet_system.Payment.Settlement.{TransactionContext, fail}
use payment_wallet_system.Payment.Repository.{mark_delivered, increment_retry}
use payment_wallet_system.Payment.Processor.{
  Env, context, retry, catch_retry, handle_result, with_provider, with_row, attempt_for,
  process_event,
}

-- A retry that fails has failed because the event is not there, and fails again.
catch_retry-retry :
    (id : Uuid) (db : Db) (r : Result (Unit {0} × Db))
    → increment_retry id db ≡ r
    → catch_retry id (retry id db) ≡ retry id db
catch_retry-retry id db (ok (tt, db')) q = ground arith
catch_retry-retry id db (err x) q = ground arith

attempt_internal :
    (env : Env) (e : OutboxEvent) (t : Transaction) (db : Db) (u : Option Uuid)
    → find_transaction e.transaction_id db ≡ some t
    → t.provider ≡ some internal
    → catch_retry e.id (attempt_for env e u db) ≡ retry e.id db
unfolding attempt_for resolve_process
attempt_internal env e t db none f p = catch_retry-retry e.id db (increment_retry e.id db) refl
attempt_internal env e t db (some u) f p =
    ap (λ o. catch_retry e.id (with_row env e u o db)) f
    ∙ ap (λ o. catch_retry e.id (with_provider env e (context t u) o db)) p

-- An event whose transaction has the provider `internal` finds no adapter, whatever its payload: its
-- handling is one more retry, and nothing else.
pub internal_event-retry :
    (env : Env) (e : OutboxEvent) (t : Transaction) (db : Db)
    → find_transaction e.transaction_id db ≡ some t
    → t.provider ≡ some internal
    → process_event env e db ≡ retry e.id db
unfolding process_event
internal_event-retry env e t db f p = attempt_internal env e t db e.payload.user_id f p

-- Stripe never says that a request is done.
stripe-waits :
    (api : Apis) (k : TransactionType) (p : Payload)
    → (stripe_process api k p).success ≡ true
    → (stripe_process api k p).requires_webhook ≡ true
unfolding stripe_process
stripe-waits api deposit_type p h = ground arith
stripe-waits api withdrawal_type p h = ground arith
stripe-waits api transfer_type p h = ground arith

-- The handling of a waiting answer delivers the event, and that of a refusal fails the transaction.
handle_waiting :
    (s : Stamp) (ctx : TransactionContext) (event_id : Uuid) (r : ProviderResult)
    → (r.success ≡ true → r.requires_webhook ≡ true)
    → (handle_result r.requires_webhook r.success s ctx event_id r
        ≡ with_transaction (mark_delivered s.now event_id))
      ⊎ (handle_result r.requires_webhook r.success s ctx event_id r ≡ fail s ctx event_id r)
unfolding handle_result
handle_waiting s ctx event_id r h = elim (Bool-cases r.success) [
  | inl good ↦ inl (ground arith)
  | inr bad ↦ elim (Bool-cases r.requires_webhook) [
    | inl w ↦ inr (ground arith)
    | inr n ↦ inr (ground arith)
  ]
]

-- An event of a transaction of Stripe is never settled by the processor: with what Stripe may answer
-- at once, its handling marks the event as delivered or fails the transaction, and if that throws
-- counts one more retry. The event's payload names its user.
pub stripe_event-unsettled :
    (env : Env) (e : OutboxEvent) (t : Transaction) (u : Uuid) (db : Db)
    → e.payload.user_id ≡ some u
    → find_transaction e.transaction_id db ≡ some t
    → t.provider ≡ some stripe
    → let s = env.stamp e.id in
      (process_event env e db ≡ catch_retry e.id (with_transaction (mark_delivered s.now e.id) db))
      ⊎ ((r : ProviderResult) × (process_event env e db
            ≡ catch_retry e.id (fail s (context t u) e.id r db)))
unfolding process_event attempt_for resolve_process
stripe_event-unsettled env e t u db q f p =
    let r = stripe_process (env.apis e.id) t.type e.payload in
    let answered : process_event env e db
        ≡ catch_retry e.id
            (handle_result r.requires_webhook r.success (env.stamp e.id) (context t u) e.id r db) =
      ap (λ o. catch_retry e.id (attempt_for env e o db)) q
      ∙ ap (λ o. catch_retry e.id (with_row env e u o db)) f
      ∙ ap (λ o. catch_retry e.id (with_provider env e (context t u) o db)) p in
    elim (handle_waiting (env.stamp e.id) (context t u) e.id r
      (stripe-waits (env.apis e.id) t.type e.payload)) [
        | inl d ↦ inl (answered ∙ ap (λ h. catch_retry e.id (h db)) d)
        | inr d ↦ inr (r, answered ∙ ap (λ h. catch_retry e.id (h db)) d)
      ]
