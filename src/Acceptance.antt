-- ===== src/Acceptance.antt =====
-- src/modules/transaction/transaction.service.ts: the conditions under which a deposit and a withdrawal
-- are carried out.
pub mod Transfers
use payment_wallet_system.Prelude.{
  ◌≡◌, refl, ◌∙◌, some, none, true, false, inl, inr, ◌⊎◌, ◌++◌, [], ◌∷◌, arith, ◌==◌,
}
use payment_wallet_system.Prelude.Int.{◌+ℤ◌, ◌-ℤ◌, ◌≤ℤ◌}
use payment_wallet_system.Db.Schema.{
  Uuid, Wallet, Transaction, LedgerEntry, debit, active, Currency, Decimal, Db,
}
use payment_wallet_system.Db.Table.{find_unique, find_unique-replace}
use payment_wallet_system.Db.Tx.{Tx, Result, Exception, ok, err, with_transaction}
use payment_wallet_system.Db.Writes.{
  Stamp, fits, find_wallet, find_transaction, find_key, find_event,
}
use payment_wallet_system.Wallet.{find_by_user_id, same_currency}
use payment_wallet_system.Transaction.Service.{
  MoneyDto, TransferDto, transfer, transfer_tx, transfer_locked, transfer_between, MutationResult,
  fresh, replay_or, deposit, withdraw, deposit_tx, withdraw_tx, to_result,
}
use payment_wallet_system.Books.Posting.{Posts}
use payment_wallet_system.Books.Deposits.{deposit_tx-Posts, key_of_deposit, amount_of_deposit}
use payment_wallet_system.Books.Withdrawals.{
  withdraw_tx-Posts, key_of_withdrawal, amount_of_withdrawal,
}
use payment_wallet_system.Transaction.{
  execute_transfer, ledger_entry, initiate_deposit, initiate_withdrawal,
}

-- The key and the ids that the database makes are new.
pub record IsNew (s : Stamp) (key : Uuid) (db : Db) : Type 0 where
  pub new_key : find_key key db ≡ none
  pub new_id : find_transaction s.transaction_id db ≡ none
  pub new_entry : find_unique (λ (l : LedgerEntry). l.id) s.entry_id db.ledger ≡ none
  pub new_event : find_event s.event_id db ≡ none

-- The user's wallet is active and in the currency, and its balances and the amount fit their columns.
pub record IsOpen (u : Uuid) (currency : Currency) (amount : Decimal) (w : Wallet) (db : Db)
    : Type 0 where
  pub of_user : find_by_user_id u db ≡ some w
  pub found : find_wallet w.id db ≡ some w
  pub is_open : w.status ≡ active
  pub in_currency : w.currency ≡ currency
  pub amount_fits : fits amount ≡ true
  pub available_fits : fits w.available_balance ≡ true
  pub locked_fits : fits w.locked_balance ≡ true
  pub pending_fits : fits w.pending_balance ≡ true

Result-any : {A : Type 0} (r : Result A) → ((a : A) × (r ≡ ok a)) ⊎ ((e : Exception) × (r ≡ err e))
Result-any (ok a) = inl (a, refl)
Result-any (err e) = inr (e, refl)

same_currency_refl : (c : Currency) → same_currency c c ≡ true
same_currency_refl c = ground arith

deposit_tx-completes :
    (s : Stamp) (u : Uuid) (dto : MoneyDto) (db : Db) (w : Wallet)
    → IsNew s dto.idempotency_key db
    → IsOpen u dto.currency dto.amount w db
    → fits (w.pending_balance +ℤ dto.amount) ≡ true
    → (t : Transaction) × (db' : Db) × (deposit_tx s u dto db ≡ ok (t, db'))
unfolding deposit_tx initiate_deposit
deposit_tx-completes s u dto db w n o room =
    let nk = n.new_key in
    let ni = n.new_id in
    let ne = n.new_entry in
    let nv = n.new_event in
    let us = o.of_user in
    let f = o.found in
    let a = o.is_open in
    let c = o.in_currency in
    let af = o.amount_fits in
    let x = o.available_fits in
    let y = o.locked_fits in
    let cc = same_currency_refl dto.currency in
    elim (Result-any (deposit_tx s u dto db)) [
      | inl ((t, db'), done) ↦ (t, db', done)
      | inr (e, thrown) ↦ ground arith
    ]

withdraw_tx-completes :
    (s : Stamp) (u : Uuid) (dto : MoneyDto) (db : Db) (w : Wallet)
    → IsNew s dto.idempotency_key db
    → IsOpen u dto.currency dto.amount w db
    → dto.amount ≤ℤ w.available_balance
    → fits (w.available_balance -ℤ dto.amount) ≡ true
    → fits (w.locked_balance +ℤ dto.amount) ≡ true
    → (t : Transaction) × (db' : Db) × (withdraw_tx s u dto db ≡ ok (t, db'))
unfolding withdraw_tx initiate_withdrawal
withdraw_tx-completes s u dto db w n o pays room room' =
    let nk = n.new_key in
    let ni = n.new_id in
    let ne = n.new_entry in
    let nv = n.new_event in
    let us = o.of_user in
    let f = o.found in
    let a = o.is_open in
    let c = o.in_currency in
    let af = o.amount_fits in
    let x = o.pending_fits in
    let cc = same_currency_refl dto.currency in
    elim (Result-any (withdraw_tx s u dto db)) [
      | inl ((t, db'), done) ↦ (t, db', done)
      | inr (e, thrown) ↦ ground arith
    ]

-- A new operation is done and posted, with the key and the amount of the request.
abbrev pub Accepted : Uuid → Decimal → Db → Result MutationResult × Db → Type 0
Accepted key amount db p =
    (t : Transaction) × (db' : Db) × (p
      ≡ (ok (record { content = to_result t; replayed = false }), db'))
    × Posts db t db'
    × (t.idempotency_key ≡ key)
    × (t.amount ≡ amount)

accepted :
    (key : Uuid) (m : Tx Transaction) (db db' : Db) (t : Transaction)
    → find_key key db ≡ none
    → m db ≡ ok (t, db')
    → replay_or key m db ≡ (ok (record { content = to_result t; replayed = false }), db')
accepted key m db db' t n e = rw (n, replay_or) (rw (e, with_transaction, fresh) refl)

-- A deposit into the user's open wallet, under a new key and in the wallet's currency, is accepted:
-- it answers as new, and posts its transaction, by which every balance moves, with the key and the
-- amount of the request. No balance leaves the range of its column, and the new ids are new.
deposit-Accepted :
    (s : Stamp) (u : Uuid) (dto : MoneyDto) (db : Db) (w : Wallet)
    → IsNew s dto.idempotency_key db
    → IsOpen u dto.currency dto.amount w db
    → fits (w.pending_balance +ℤ dto.amount) ≡ true
    → Accepted dto.idempotency_key dto.amount db (deposit s u dto db)
unfolding deposit
deposit-Accepted s u dto db w n o room =
    let (t, db', done) = deposit_tx-completes s u dto db w n o room in
    (
      t,
      db',
      accepted dto.idempotency_key (deposit_tx s u dto) db db' t n.new_key done,
      deposit_tx-Posts s u dto db db' t done,
      key_of_deposit s u dto db db' t done,
      amount_of_deposit s u dto db db' t done,
    )

-- A withdrawal from the user's open wallet of no more than is available, under a new key and in the
-- wallet's currency, is accepted: it answers as new, and posts its transaction, by which every
-- balance moves, with the key and the amount of the request. No balance leaves the range of its
-- column, and the new ids are new.
pub withdraw-Accepted :
    (s : Stamp) (u : Uuid) (dto : MoneyDto) (db : Db) (w : Wallet)
    → IsNew s dto.idempotency_key db
    → IsOpen u dto.currency dto.amount w db
    → dto.amount ≤ℤ w.available_balance
    → fits (w.available_balance -ℤ dto.amount) ≡ true
    → fits (w.locked_balance +ℤ dto.amount) ≡ true
    → Accepted dto.idempotency_key dto.amount db (withdraw s u dto db)
unfolding withdraw
withdraw-Accepted s u dto db w n o pays room room' =
    let (t, db', done) = withdraw_tx-completes s u dto db w n o pays room room' in
    (
      t,
      db',
      accepted dto.idempotency_key (withdraw_tx s u dto) db db' t n.new_key done,
      withdraw_tx-Posts s u dto db db' t done,
      key_of_withdrawal s u dto db db' t done,
      amount_of_withdrawal s u dto db db' t done,
    )
