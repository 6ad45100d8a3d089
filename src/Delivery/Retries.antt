-- ===== src/Delivery/Retries.antt =====
-- src/modules/transaction/transaction.service.ts and src/modules/payment/payment-processor.service.ts:
-- the events that deposit and withdraw write, and what the processor makes of them.
use payment_wallet_system.Prelude.{
  ◌≡◌, ◌⊎◌, inl, inr, some, none, false, arith, Option-cases, ap, ◌∙◌, refl, subst, [], ◌∷◌, ◌++◌,
  ◌==◌, ==_refl, if◌then◌else◌,
}
use payment_wallet_system.Db.Schema.{
  Uuid, Wallet, Transaction, OutboxEvent, internal, deposit_initiated, withdrawal_initiated, Db,
}
use payment_wallet_system.Db.Tx.{ok}
use payment_wallet_system.Db.Table.{find_unique, find_unique-snoc, find_unique-column}
use payment_wallet_system.Db.Writes.{Stamp, find_wallet, find_transaction, find_event, find_key}
use payment_wallet_system.Auth.Calls.{Answer-cases}
use payment_wallet_system.Wallet.{find_by_user_id}
use payment_wallet_system.Transaction.{outbox_event, initiate_deposit, initiate_withdrawal}
use payment_wallet_system.Transaction.Service.{
  MoneyDto, MutationResult, deposit, withdraw, deposit_tx, withdraw_tx, wallet_payload,
}
use payment_wallet_system.Books.Posting.{Posts}
use payment_wallet_system.Books.Deposits.{deposit_tx-Posts}
use payment_wallet_system.Books.Withdrawals.{withdraw_tx-Posts}
use payment_wallet_system.Payment.Processor.{Env, retry, process_event}
use payment_wallet_system.Delivery.Hand.{internal_event-retry}

-- What a callback adds to the outbox.
pub record Adds (s : Stamp) (db : Db) (t : Transaction) (db' : Db) : Type 0 where
  pub event : OutboxEvent
  pub written : db'.outbox ≡ db.outbox ++ event ∷ []
  pub new_event : find_event s.event_id db ≡ none
  pub has_id : event.id ≡ s.event_id
  pub of_transaction : event.transaction_id ≡ t.id
  pub by_internal : t.provider ≡ some internal

deposit_tx-Adds :
    (s : Stamp) (u : Uuid) (dto : MoneyDto) (db db' : Db) (t : Transaction)
    → deposit_tx s u dto db ≡ ok (t, db')
    → Adds s db t db'
unfolding deposit_tx initiate_deposit
deposit_tx-Adds s u dto db db' t e = elim (Option-cases (find_by_user_id u db)) [
  | inl missing ↦ ground arith
  | inr (w, found) ↦ elim (Option-cases (find_wallet w.id db)) [
    | inl missing ↦ ground arith
    | inr (old, held) ↦
        let same = find_unique-column (λ (v : Wallet). v.id) w.id db.wallets old held in
        record {
          event =
              outbox_event s s.transaction_id deposit_initiated
                (wallet_payload old.id u dto.amount dto.currency);
          written = ground arith;
          new_event = ground arith;
          has_id = refl;
          of_transaction = ground arith;
          by_internal = ground arith;
        }
  ]
]

withdraw_tx-Adds :
    (s : Stamp) (u : Uuid) (dto : MoneyDto) (db db' : Db) (t : Transaction)
    → withdraw_tx s u dto db ≡ ok (t, db')
    → Adds s db t db'
unfolding withdraw_tx initiate_withdrawal
withdraw_tx-Adds s u dto db db' t e = elim (Option-cases (find_by_user_id u db)) [
  | inl missing ↦ ground arith
  | inr (w, found) ↦ elim (Option-cases (find_wallet w.id db)) [
    | inl missing ↦ ground arith
    | inr (old, held) ↦
        let same = find_unique-column (λ (v : Wallet). v.id) w.id db.wallets old held in
        record {
          event =
              outbox_event s s.transaction_id withdrawal_initiated
                (wallet_payload old.id u dto.amount dto.currency);
          written = ground arith;
          new_event = ground arith;
          has_id = refl;
          of_transaction = ground arith;
          by_internal = ground arith;
        }
  ]
]

-- The event of a new operation, whose handling is one more retry whatever the world says.
abbrev pub IsOnlyRetried : Stamp → Db → Type 0
IsOnlyRetried s db =
    (e : OutboxEvent) × (find_event s.event_id db ≡ some e)
    × ((env : Env) → process_event env e db ≡ retry s.event_id db)

added-IsOnlyRetried :
    (s : Stamp) (db db' : Db) (t : Transaction)
    → Adds s db t db'
    → Posts db t db'
    → IsOnlyRetried s db'
added-IsOnlyRetried s db db' t a p = (
  a.event,
  there,
  λ env. internal_event-retry env a.event t db' row a.by_internal ∙ ap (λ i. retry i db') a.has_id,
)
  where
    there : find_event s.event_id db' ≡ some a.event
    there =
        ap (find_unique (λ e. e.id) s.event_id) a.written
        ∙ find_unique-snoc (λ e. e.id) s.event_id db.outbox a.event a.new_event
        ∙ ap (λ i. if i == s.event_id then some a.event else none) a.has_id
        ∙ rw (==_refl s.event_id) refl

    row : find_transaction a.event.transaction_id db' ≡ some t
    row =
        ap (λ i. find_transaction i db') a.of_transaction
        ∙ ap (find_unique (λ v. v.id) t.id) p.posted
        ∙ find_unique-snoc (λ v. v.id) t.id db.transactions t p.fresh_id
        ∙ rw (==_refl t.id) refl

-- Whatever `deposit` or `withdraw` answers as new, its event is in the outbox that it leaves, and the
-- processor, handling the event there, whatever providers would answer, finds no adapter for it: it
-- counts one more retry and does nothing else.
pub internal_operations-IsOnlyRetried :
    (s : Stamp) (u : Uuid) (dto : MoneyDto) (db db' : Db) (r : MutationResult)
    → r.replayed ≡ false
    → (deposit s u dto db ≡ (ok r, db')) ⊎ (withdraw s u dto db ≡ (ok r, db'))
    → IsOnlyRetried s db'
unfolding deposit withdraw
internal_operations-IsOnlyRetried s u dto db db' r new (inl e) =
    elim (Option-cases (find_key dto.idempotency_key db)) [
      | inr (t, taken) ↦ ground arith
      | inl free ↦ elim (Answer-cases (deposit_tx s u dto db)) [
        | inr (x, thrown) ↦ ground arith
        | inl ((t, after), done) ↦
            let left : after ≡ db' = ground arith in
            subst (IsOnlyRetried s) left (
              added-IsOnlyRetried s db after t (deposit_tx-Adds s u dto db after t done)
                (deposit_tx-Posts s u dto db after t done))
      ]
    ]
internal_operations-IsOnlyRetried s u dto db db' r new (inr e) =
    elim (Option-cases (find_key dto.idempotency_key db)) [
      | inr (t, taken) ↦ ground arith
      | inl free ↦ elim (Answer-cases (withdraw_tx s u dto db)) [
        | inr (x, thrown) ↦ ground arith
        | inl ((t, after), done) ↦
            let left : after ≡ db' = ground arith in
            subst (IsOnlyRetried s) left (
              added-IsOnlyRetried s db after t (withdraw_tx-Adds s u dto db after t done)
                (withdraw_tx-Posts s u dto db after t done))
      ]
    ]
