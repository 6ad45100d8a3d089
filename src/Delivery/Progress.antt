-- ===== src/Delivery/Progress.antt =====
-- src/modules/payment/payment-settlement.service.ts: the conditions of the parts of settlement and
-- failure.
use payment_wallet_system.Prelude.{
  ◌≡◌, refl, some, none, true, false, Option-cases, inl, inr, arith, String, ◌⊎◌, ◌∙◌, ==_refl,
}
use payment_wallet_system.Prelude.Int.{◌+ℤ◌, ◌-ℤ◌}
use payment_wallet_system.Db.Schema.{
  Uuid, Time, Decimal, EntryDirection, TransactionStatus, User, Wallet, Transaction, OutboxEvent,
  LedgerEntry, PaymentLog, Provider, Db,
}
use payment_wallet_system.Db.Table.{replace, find_unique, find_unique-replace, find_unique-column}
use payment_wallet_system.Db.Tx.{ok, Result-cases}
use payment_wallet_system.Db.Writes.{
  find_user, Stamp, fits, find_wallet, find_transaction, find_log, find_event,
}
use payment_wallet_system.Payment.Providers.{ProviderResult}
use payment_wallet_system.Payment.Repository.{truthy, customer_taken}
use payment_wallet_system.Payment.Settlement.{
  TransactionContext, record_outcome, mark_settled, finish_deposit, fail_deposit, fail_locked,
}

abbrev pub Delivered : Time → Uuid → Db → Type 0
Delivered now event_id db =
    (e : OutboxEvent) × (find_event event_id db ≡ some e) × (e.delivered_at ≡ some now)

-- The rows are there, the database's new ids are new, and the transaction has no outcome yet.
pub record IsReady (s : Stamp) (ctx : TransactionContext) (event_id : Uuid) (db : Db) : Type 0 where
  pub row : Transaction
  pub event : OutboxEvent
  pub provider : Provider
  pub found : find_transaction ctx.id db ≡ some row
  pub waits : find_event event_id db ≡ some event
  pub has_provider : ctx.provider ≡ some provider
  pub new_entry : find_unique (λ (l : LedgerEntry). l.id) s.entry_id db.ledger ≡ none
  pub new_log : find_unique (λ (l : PaymentLog). l.id) s.log_id db.payment_logs ≡ none
  pub unresolved : find_log ctx.id db ≡ none

delivered_there :
    (now : Time) (id : Uuid) (e : OutboxEvent) (db : Db)
    → find_event id db ≡ some e
    → find_unique
        (λ (v : OutboxEvent). v.id)
        id
        (replace (λ (v : OutboxEvent). v.id) id (record e { delivered_at = some now }) db.outbox)
      ≡ some (record e { delivered_at = some now })
delivered_there now id e db f =
    find_unique-replace (λ v. v.id) id id _ e db.outbox
      (find_unique-column (λ v. v.id) id db.outbox e f) f
    ∙ (rw (==_refl id) refl)

pub fail_deposit-completes :
    (s : Stamp) (ctx : TransactionContext) (event_id : Uuid) (r : ProviderResult) (db : Db)
    (w : Wallet)
    → IsReady s ctx event_id db
    → ctx.receiver_wallet_id ≡ some w.id
    → find_wallet w.id db ≡ some w
    → fits w.available_balance ≡ true
    → fits w.locked_balance ≡ true
    → fits (w.pending_balance -ℤ ctx.amount) ≡ true
    → (db' : Db) × (fail_deposit s ctx event_id r db ≡ ok (tt, db')) × Delivered s.now event_id db'
unfolding fail_deposit record_outcome
fail_deposit-completes s ctx event_id r db w h to f a l p =
    let e : OutboxEvent = record (h.event) { delivered_at = some s.now } in
    let found = h.found in
    let waits = h.waits in
    let has = h.has_provider in
    let new_log = h.new_log in
    let unresolved = h.unresolved in
    let there = delivered_there s.now event_id h.event db waits in
    elim (Result-cases (fail_deposit s ctx event_id r db)) [
      | inl (db', done) ↦ (db', done, (e, ground arith, refl))
      | inr (x, thrown) ↦ ground arith
    ]

pub fail_locked-completes :
    (s : Stamp) (ctx : TransactionContext) (event_id : Uuid) (r : ProviderResult) (db : Db)
    (w : Wallet)
    → IsReady s ctx event_id db
    → ctx.sender_wallet_id ≡ some w.id
    → find_wallet w.id db ≡ some w
    → fits (w.available_balance +ℤ ctx.amount) ≡ true
    → fits (w.locked_balance -ℤ ctx.amount) ≡ true
    → fits w.pending_balance ≡ true
    → (db' : Db) × (fail_locked s ctx event_id r db ≡ ok (tt, db')) × Delivered s.now event_id db'
unfolding fail_locked record_outcome
fail_locked-completes s ctx event_id r db w h from f a l p =
    let e : OutboxEvent = record (h.event) { delivered_at = some s.now } in
    let found = h.found in
    let waits = h.waits in
    let has = h.has_provider in
    let new_log = h.new_log in
    let unresolved = h.unresolved in
    let there = delivered_there s.now event_id h.event db waits in
    elim (Result-cases (fail_locked s ctx event_id r db)) [
      | inl (db', done) ↦ (db', done, (e, ground arith, refl))
      | inr (x, thrown) ↦ ground arith
    ]

-- What `mark_settled` leaves, for the row that it has found.
pub mark_settled-completes :
    (s : Stamp) (ctx : TransactionContext) (wallet_id : Uuid) (d : EntryDirection) (b : Decimal)
    (r : ProviderResult) (t : Transaction) (db : Db)
    → find_transaction ctx.id db ≡ some t
    → find_unique (λ (l : LedgerEntry). l.id) s.entry_id db.ledger ≡ none
    → fits ctx.amount ≡ true
    → fits b ≡ true
    → (db' : Db) × (mark_settled s ctx wallet_id d b r db ≡ ok (tt, db'))
      × (db'.outbox ≡ db.outbox)
      × (db'.payment_logs ≡ db.payment_logs)
      × (db'.users ≡ db.users)
unfolding mark_settled
mark_settled-completes s ctx wallet_id d b r t db f new_entry fa fb =
    elim (Option-cases (truthy r.provider_ref)) [
      | inl absent ↦ elim (Result-cases (mark_settled s ctx wallet_id d b r db)) [
        | inl (db', done) ↦ (db', done, ground arith, ground arith, ground arith)
        | inr (x, thrown) ↦ ground arith
      ]
      | inr (ref, present) ↦
          let stamped : Transaction = record t { provider_ref = some ref } in
          let got =
            find_unique-replace (λ (v : Transaction). v.id) ctx.id ctx.id stamped t db.transactions
              (find_unique-column (λ (v : Transaction). v.id) ctx.id db.transactions t f) f in
          elim (Result-cases (mark_settled s ctx wallet_id d b r db)) [
            | inl (db', done) ↦ (db', done, ground arith, ground arith, ground arith)
            | inr (x, thrown) ↦ ground arith
          ]
    ]

-- The customer that the answer names, if any, is free to be the user's.
abbrev pub CustomerFree : Uuid → ProviderResult → Db → Type 0
CustomerFree user_id r db =
    (truthy r.raw_response.customer_id ≡ none)
    ⊎ ((c : String) × (u : User) × (truthy r.raw_response.customer_id ≡ some c)
        × (find_user user_id db ≡ some u)
        × (customer_taken user_id c db.users ≡ false))

pub record_outcome-completes :
    (s : Stamp) (ctx : TransactionContext) (event_id : Uuid) (r : ProviderResult)
    (status : TransactionStatus) (db : Db) (e : OutboxEvent) (p : Provider)
    → find_event event_id db ≡ some e
    → ctx.provider ≡ some p
    → find_unique (λ (l : PaymentLog). l.id) s.log_id db.payment_logs ≡ none
    → find_log ctx.id db ≡ none
    → (db' : Db) × (record_outcome s ctx event_id r status db ≡ ok (tt, db'))
      × Delivered s.now event_id db'
unfolding record_outcome
record_outcome-completes s ctx event_id r status db e p waits has new_log unresolved =
    let there = delivered_there s.now event_id e db waits in
    elim (Result-cases (record_outcome s ctx event_id r status db)) [
      | inl (db', done) ↦ (db', done, (record e { delivered_at = some s.now }, ground arith, refl))
      | inr (x, thrown) ↦ ground arith
    ]

pub finish_deposit-completes :
    (s : Stamp) (ctx : TransactionContext) (event_id : Uuid) (r : ProviderResult) (db : Db)
    (e : OutboxEvent) (p : Provider)
    → find_event event_id db ≡ some e
    → ctx.provider ≡ some p
    → find_unique (λ (l : PaymentLog). l.id) s.log_id db.payment_logs ≡ none
    → find_log ctx.id db ≡ none
    → CustomerFree ctx.user_id r db
    → (db' : Db) × (finish_deposit s ctx event_id r db ≡ ok (tt, db'))
      × Delivered s.now event_id db'
unfolding finish_deposit
finish_deposit-completes s ctx event_id r db e p waits has new_log unresolved free =
    let there = delivered_there s.now event_id e db waits in
    elim (Result-cases (finish_deposit s ctx event_id r db)) [
      | inl (db', done) ↦ (db', done, (record e { delivered_at = some s.now }, ground arith, refl))
      | inr (x, thrown) ↦ elim free [
        | inl no_customer ↦ ground arith
        | inr (c, u, named, user, untaken) ↦ ground arith
      ]
    ]
