-- ===== src/Books/Confirmations.antt =====
-- What `PaymentService.confirmDeposit` posts.
use payment_wallet_system.Prelude.{
  ◌≡◌, inl, inr, ◌++◌, [], ◌∷◌, arith, none, Option-cases, ◌==◌, ◌∙◌, ap,
}
use payment_wallet_system.Prelude.Int.{pos, ◌+ℤ◌, ◌≤ℤ◌}
use payment_wallet_system.Db.Schema.{Uuid, Wallet, Transaction, Db, initiated}
use payment_wallet_system.Db.Table.{find_unique-column}
use payment_wallet_system.Db.Tx.{ok}
use payment_wallet_system.Db.Writes.{Stamp, find_wallet, find_transaction, find_key}
use payment_wallet_system.Wallet.{find_by_user_id}
use payment_wallet_system.Payment.Service.{ConfirmDepositDto, confirmed_row, confirm_deposit_tx}
use payment_wallet_system.Books.Effects.{available, balance, effect, deposit_effect}
use payment_wallet_system.Books.Posting.{Rewrites, balance-Rewrites, Posts}
use payment_wallet_system.Books.Deposits.{pending_delta, pending_share, sum_zero}

-- What a confirmation that went through has read and written.
record Confirmed (s : Stamp) (dto : ConfirmDepositDto) (db : Db) (t : Transaction) (db' : Db)
    : Type 0 where
  old : Wallet
  rewrites :
      Rewrites db old (record old { pending_balance = old.pending_balance +ℤ dto.amount }) db'
  row : t ≡ confirmed_row s dto old.id
  posted : db'.transactions ≡ db.transactions ++ t ∷ []
  fresh_id : find_transaction t.id db ≡ none
  fresh_key : find_key t.idempotency_key db ≡ none
  logs_kept : db'.payment_logs ≡ db.payment_logs

confirm_deposit_tx-Confirmed :
    (s : Stamp) (u : Uuid) (dto : ConfirmDepositDto) (db db' : Db) (t : Transaction)
    → confirm_deposit_tx s u dto db ≡ ok (t, db')
    → Confirmed s dto db t db'
unfolding confirm_deposit_tx
confirm_deposit_tx-Confirmed s u dto db db' t e = elim (Option-cases (find_by_user_id u db)) [
  | inl missing ↦ ground arith
  | inr (w, found) ↦ elim (Option-cases (find_wallet w.id db)) [
    | inl missing ↦ ground arith
    | inr (old, got) ↦
        let same = find_unique-column (λ (v : Wallet). v.id) w.id db.wallets old got in
        record {
          old = old;
          rewrites = ground arith;
          row = ground arith;
          posted = ground arith;
          fresh_id = ground arith;
          fresh_key = ground arith;
          logs_kept = ground arith;
        }
  ]
]

-- The confirmation of a deposit that goes through adds its transaction under a new id and a new key,
-- moves every balance by what that transaction contributes, and leaves the payment logs alone.
pub confirm_deposit_tx-Posts :
    (s : Stamp) (u : Uuid) (dto : ConfirmDepositDto) (db db' : Db) (t : Transaction)
    → confirm_deposit_tx s u dto db ≡ ok (t, db')
    → Posts db t db'
unfolding effect
confirm_deposit_tx-Posts s u dto db db' t e = record {
  posted = d.posted;
  moved = λ p j.
      balance-Rewrites p j (deposit_effect p initiated dto.amount) db db' d.old _ d.rewrites
        (pending_delta p d.old dto.amount)
      ∙ ap (◌+ℤ◌ (balance p j db)) (rw d.row (pending_share p d.old.id j dto.amount));
  fresh_id = d.fresh_id;
  fresh_key = d.fresh_key;
  no_log_yet = rw d.row;
  logs_kept = d.logs_kept;
}
  where
    d : Confirmed s dto db t db'
    d = confirm_deposit_tx-Confirmed s u dto db db' t e

pub amount_of_confirmation :
    (s : Stamp) (u : Uuid) (dto : ConfirmDepositDto) (db db' : Db) (t : Transaction)
    → confirm_deposit_tx s u dto db ≡ ok (t, db')
    → t.amount ≡ dto.amount
amount_of_confirmation s u dto db db' t e = rw (confirm_deposit_tx-Confirmed s u dto db db' t e).row

-- A confirmation leaves every available balance alone.
pub confirm_deposit_tx-covered :
    (s : Stamp) (u : Uuid) (dto : ConfirmDepositDto) (db db' : Db) (t : Transaction) (j : Uuid)
    → confirm_deposit_tx s u dto db ≡ ok (t, db')
    → pos 0 ≤ℤ balance available j db
    → pos 0 ≤ℤ balance available j db'
confirm_deposit_tx-covered s u dto db db' t j e h =
    rw
      (
        balance-Rewrites available j (pos 0) db db' d.old _ d.rewrites
            (pending_delta available d.old dto.amount),
        sum_zero (d.old.id == j) (balance available j db),
      )
      h
  where
    d : Confirmed s dto db t db'
    d = confirm_deposit_tx-Confirmed s u dto db db' t e

pub key_of_confirmation :
    (s : Stamp) (u : Uuid) (dto : ConfirmDepositDto) (db db' : Db) (t : Transaction)
    → confirm_deposit_tx s u dto db ≡ ok (t, db')
    → t.idempotency_key ≡ dto.idempotency_key
key_of_confirmation s u dto db db' t e = rw (confirm_deposit_tx-Confirmed s u dto db db' t e).row
