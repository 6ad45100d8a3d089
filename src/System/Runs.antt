-- ===== src/System/Runs.antt =====
-- Requests and outbox runs, one after another, over one database.
use payment_wallet_system.Prelude.{◌≡◌, refl, inl, inr, arith, Option-cases, Bool-cases, ◌==◌}
use payment_wallet_system.Prelude.Int.{pos, ◌≤ℤ◌}
use payment_wallet_system.Db.Schema.{Uuid, Transaction, Db}
use payment_wallet_system.Db.Tx.{Tx, Result, ok, err, with_transaction}
use payment_wallet_system.Db.Writes.{Stamp, find_key}
use payment_wallet_system.Wallet.{find_by_user_id}
use payment_wallet_system.Transaction.Service.{
  MoneyDto, TransferDto, fresh, replay_or, deposit, withdraw, transfer, deposit_tx, withdraw_tx,
  transfer_between,
}
use payment_wallet_system.Payment.Service.{
  ConfirmDepositDto, CreatePayoutDto, fresh_payment, payment_replay_or, confirm_deposit,
  create_payout, confirm_deposit_tx, create_payout_tx,
}
use payment_wallet_system.System.Steps.{
  Commit, Reach, here, next, deposits, withdraws, transfers, confirms, pays_out,
}

-- A transaction of the database commits, or leaves the database as it was.
pub with_transaction-Reach :
    {A : Type 0} (m : Tx A) (db : Db) (r : Result (A × Db))
    → m db ≡ r
    → ((a : A) (db' : Db) → m db ≡ ok (a, db') → Commit db db')
    → Reach db (with_transaction m db).1
with_transaction-Reach m db (ok (a, db')) e h = rw (e, with_transaction) (next here (h a db' e))
with_transaction-Reach m db (err x) e h = rw (e, with_transaction) here

fresh_db : (p : Result Transaction × Db) → (fresh p).1 ≡ p.1
fresh_db (ok t, db) = refl
fresh_db (err e, db) = refl

replay_or-Reach :
    (key : Uuid) (m : Tx Transaction) (db : Db)
    → Reach db (with_transaction m db).1
    → Reach db (replay_or key m db).1
replay_or-Reach key m db h = elim (Option-cases (find_key key db)) [
  | inl unseen ↦ rw (unseen, replay_or) (rw (fresh_db (with_transaction m db)) h)
  | inr (t, seen) ↦ rw (seen, replay_or) here
]

pub deposit-Reach :
    (s : Stamp) (u : Uuid) (dto : MoneyDto) (db : Db)
    → pos 0 ≤ℤ dto.amount
    → Reach db (deposit s u dto db).1
unfolding deposit
deposit-Reach s u dto db h =
    replay_or-Reach dto.idempotency_key (deposit_tx s u dto) db
      (with_transaction-Reach (deposit_tx s u dto) db _ refl (λ t db' e. deposits s u dto t h e))

pub withdraw-Reach :
    (s : Stamp) (u : Uuid) (dto : MoneyDto) (db : Db)
    → pos 0 ≤ℤ dto.amount
    → Reach db (withdraw s u dto db).1
unfolding withdraw
withdraw-Reach s u dto db h =
    replay_or-Reach dto.idempotency_key (withdraw_tx s u dto) db
      (with_transaction-Reach (withdraw_tx s u dto) db _ refl (λ t db' e. withdraws s u dto t h e))

transfer_between-Commit :
    (s : Stamp) (u : Uuid) (dto : TransferDto) (db : Db) (t : Transaction) (db' : Db)
    → pos 0 ≤ℤ dto.amount
    → transfer_between s u dto db ≡ ok (t, db')
    → Commit db db'
transfer_between-Commit s u dto db t db' h e = elim (Option-cases (find_by_user_id u db)) [
  | inl missing ↦ ground arith
  | inr (a, ea) ↦ elim (Option-cases (find_by_user_id dto.recipient_user_id db)) [
    | inl missing ↦ ground arith
    | inr (b, eb) ↦ transfers s u a.id b.id dto t h (ground arith)
  ]
]

pub transfer-Reach :
    (s : Stamp) (u : Uuid) (dto : TransferDto) (db : Db)
    → pos 0 ≤ℤ dto.amount
    → Reach db (transfer s u dto db).1
unfolding transfer
transfer-Reach s u dto db h = elim (Bool-cases (u == dto.recipient_user_id)) [
  | inl self ↦ rw self here
  | inr other ↦ rw other (
      replay_or-Reach dto.idempotency_key (transfer_between s u dto) db (
        with_transaction-Reach (transfer_between s u dto) db _ refl
          (λ t db' e. transfer_between-Commit s u dto db t db' h e)))
]

fresh_payment_db : (p : Result Transaction × Db) → (fresh_payment p).1 ≡ p.1
fresh_payment_db (ok t, db) = refl
fresh_payment_db (err e, db) = refl

payment_replay_or-Reach :
    (key : Uuid) (m : Tx Transaction) (db : Db)
    → Reach db (with_transaction m db).1
    → Reach db (payment_replay_or key m db).1
payment_replay_or-Reach key m db h = elim (Option-cases (find_key key db)) [
  | inl unseen ↦ rw (unseen, payment_replay_or) (rw (fresh_payment_db (with_transaction m db)) h)
  | inr (t, seen) ↦ rw (seen, payment_replay_or) here
]

pub confirm_deposit-Reach :
    (s : Stamp) (u : Uuid) (dto : ConfirmDepositDto) (db : Db)
    → pos 0 ≤ℤ dto.amount
    → Reach db (confirm_deposit s u dto db).1
unfolding confirm_deposit
confirm_deposit-Reach s u dto db h =
    payment_replay_or-Reach dto.idempotency_key (confirm_deposit_tx s u dto) db (
      with_transaction-Reach (confirm_deposit_tx s u dto) db _ refl
        (λ t db' e. confirms s u dto t h e))

pub create_payout-Reach :
    (s : Stamp) (u : Uuid) (dto : CreatePayoutDto) (db : Db)
    → pos 0 ≤ℤ dto.amount
    → Reach db (create_payout s u dto db).1
unfolding create_payout
create_payout-Reach s u dto db h =
    payment_replay_or-Reach dto.idempotency_key (create_payout_tx s u dto) db (
      with_transaction-Reach (create_payout_tx s u dto) db _ refl
        (λ t db' e. pays_out s u dto t h e))
