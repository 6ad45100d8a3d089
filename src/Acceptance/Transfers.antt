-- ===== src/Acceptance/Transfers.antt =====
-- src/modules/transaction/transaction.service.ts: the conditions under which a transfer is carried out.
use payment_wallet_system.Prelude.{
  ◌≡◌, refl, ◌∙◌, some, none, true, false, inl, inr, ◌++◌, [], ◌∷◌, arith, ◌==◌,
}
use payment_wallet_system.Prelude.Int.{◌+ℤ◌, ◌-ℤ◌, ◌≤ℤ◌}
use payment_wallet_system.Db.Schema.{Uuid, Wallet, Transaction, LedgerEntry, debit, Db}
use payment_wallet_system.Db.Table.{find_unique, find_unique-replace}
use payment_wallet_system.Db.Tx.{ok}
use payment_wallet_system.Db.Writes.{Stamp, fits}
use payment_wallet_system.Wallet.{find_by_user_id}
use payment_wallet_system.Transaction.Service.{
  TransferDto, transfer, transfer_tx, transfer_locked, transfer_between,
}
use payment_wallet_system.Books.Transfers.Moves.{
  transfer_tx-Posts, key_of_transfer, amount_of_transfer,
}
use payment_wallet_system.Transaction.{execute_transfer, ledger_entry}
use payment_wallet_system.Acceptance.{
  IsNew, IsOpen, Accepted, accepted, Result-any, same_currency_refl,
}

-- The first ledger entry of a transfer.
abbrev pub debit_entry : Stamp → Wallet → TransferDto → LedgerEntry
debit_entry s a dto =
    ledger_entry s.entry_id s.now a.id s.transaction_id debit dto.amount dto.currency
      (a.available_balance -ℤ dto.amount)

transfer_tx-completes :
    (s : Stamp) (u : Uuid) (dto : TransferDto) (db : Db) (a b : Wallet)
    → IsNew s dto.idempotency_key db
    → find_unique
        (λ (l : LedgerEntry). l.id)
        s.second_entry_id
        (db.ledger ++ debit_entry s a dto ∷ [])
      ≡ none
    → IsOpen u dto.currency dto.amount a db
    → IsOpen dto.recipient_user_id dto.currency dto.amount b db
    → (a.id == b.id) ≡ false
    → dto.amount ≤ℤ a.available_balance
    → fits (a.available_balance -ℤ dto.amount) ≡ true
    → fits (b.available_balance +ℤ dto.amount) ≡ true
    → (t : Transaction) × (db' : Db) × (transfer_tx s u a.id b.id dto db ≡ ok (t, db'))
unfolding transfer_tx transfer_locked execute_transfer
transfer_tx-completes s u dto db a b n second oa ob differs pays room room' =
    let nk = n.new_key in
    let ni = n.new_id in
    let ne = n.new_entry in
    let nv = n.new_event in
    let fa = oa.found in
    let sa = oa.is_open in
    let ca = oa.in_currency in
    let fb = ob.found in
    let sb = ob.is_open in
    let cb = ob.in_currency in
    let af = oa.amount_fits in
    let la = oa.locked_fits in
    let pa = oa.pending_fits in
    let lb = ob.locked_fits in
    let pb = ob.pending_fits in
    let cc = same_currency_refl dto.currency in
    let other =
      find_unique-replace (λ (v : Wallet). v.id) b.id a.id
        (record a { available_balance = a.available_balance -ℤ dto.amount }) a db.wallets refl fa in
    elim (Result-any (transfer_tx s u a.id b.id dto db)) [
      | inl ((t, db'), done) ↦ (t, db', done)
      | inr (e, thrown) ↦ ground arith
    ]

transfer_between-from :
    (s : Stamp) (u : Uuid) (dto : TransferDto) (db : Db) (a b : Wallet)
    → find_by_user_id u db ≡ some a
    → find_by_user_id dto.recipient_user_id db ≡ some b
    → transfer_between s u dto db ≡ transfer_tx s u a.id b.id dto db
transfer_between-from s u dto db a b ea eb = ground arith

-- A transfer between the open wallets of two users, of no more than the sender has available, under a
-- new key and in the currency of both wallets, is accepted: it answers as new, and posts its
-- transaction, by which every balance moves, with the key and the amount of the request. No balance
-- leaves the range of its column, and the new ids are new.
pub transfer-Accepted :
    (s : Stamp) (u : Uuid) (dto : TransferDto) (db : Db) (a b : Wallet)
    → (u == dto.recipient_user_id) ≡ false
    → IsNew s dto.idempotency_key db
    → find_unique
        (λ (l : LedgerEntry). l.id)
        s.second_entry_id
        (db.ledger ++ debit_entry s a dto ∷ [])
      ≡ none
    → IsOpen u dto.currency dto.amount a db
    → IsOpen dto.recipient_user_id dto.currency dto.amount b db
    → (a.id == b.id) ≡ false
    → dto.amount ≤ℤ a.available_balance
    → fits (a.available_balance -ℤ dto.amount) ≡ true
    → fits (b.available_balance +ℤ dto.amount) ≡ true
    → Accepted dto.idempotency_key dto.amount db (transfer s u dto db)
unfolding transfer
transfer-Accepted s u dto db a b other n second oa ob differs pays room room' =
    let (t, db', done) =
      transfer_tx-completes s u dto db a b n second oa ob differs pays room room' in
    (
      t,
      db',
      rw other (
          accepted dto.idempotency_key (transfer_between s u dto) db db' t n.new_key
            (transfer_between-from s u dto db a b oa.of_user ob.of_user ∙ done)),
      transfer_tx-Posts s u a.id b.id dto db db' t done,
      key_of_transfer s u a.id b.id dto db db' t done,
      amount_of_transfer s u a.id b.id dto db db' t done,
    )
