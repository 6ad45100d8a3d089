-- ===== src/Books/Payouts.antt =====
-- What `PaymentService.createPayout` posts.
use payment_wallet_system.Prelude.{◌≡◌, inl, inr, ◌++◌, [], ◌∷◌, arith, none, Option-cases, ◌∙◌, ap}
use payment_wallet_system.Prelude.Int.{pos, ◌+ℤ◌, ◌≤ℤ◌, int_laws}
use payment_wallet_system.Db.Schema.{Uuid, Wallet, Transaction, Db, initiated}
use payment_wallet_system.Db.Table.{find_unique-column}
use payment_wallet_system.Db.Tx.{ok}
use payment_wallet_system.Db.Writes.{Stamp, find_wallet, find_transaction, find_key}
use payment_wallet_system.Wallet.{find_by_user_id}
use payment_wallet_system.Payment.Service.{
  CreatePayoutDto, payout_row, payout_payload, create_payout_tx,
}
use payment_wallet_system.Books.Effects.{balance, available, effect, withdrawal_effect}
use payment_wallet_system.Books.Posting.{Rewrites, balance-Rewrites, Rewrites-nonneg, Posts}
use payment_wallet_system.Books.Withdrawals.{held, held_delta, held_share}

-- What a payout that went through has read and written.
record PaidOut (s : Stamp) (dto : CreatePayoutDto) (db : Db) (t : Transaction) (db' : Db)
    : Type 0 where
  old : Wallet
  covered : dto.amount ≤ℤ old.available_balance
  rewrites : Rewrites db old (held old dto.amount) db'
  row : t ≡ payout_row s dto old.id
  posted : db'.transactions ≡ db.transactions ++ t ∷ []
  fresh_id : find_transaction t.id db ≡ none
  fresh_key : find_key t.idempotency_key db ≡ none
  logs_kept : db'.payment_logs ≡ db.payment_logs

create_payout_tx-PaidOut :
    (s : Stamp) (u : Uuid) (dto : CreatePayoutDto) (db db' : Db) (t : Transaction)
    → create_payout_tx s u dto db ≡ ok (t, db')
    → PaidOut s dto db t db'
unfolding create_payout_tx payout_payload
create_payout_tx-PaidOut s u dto db db' t e = elim (Option-cases (find_by_user_id u db)) [
  | inl missing ↦ ground arith
  | inr (w, found) ↦ elim (Option-cases (find_wallet w.id db)) [
    | inl missing ↦ ground arith
    | inr (old, got) ↦
        let same = find_unique-column (λ (v : Wallet). v.id) w.id db.wallets old got in
        record {
          old = old;
          covered = ground arith;
          rewrites = ground arith;
          row = ground arith;
          posted = ground arith;
          fresh_id = ground arith;
          fresh_key = ground arith;
          logs_kept = ground arith;
        }
  ]
]

-- A payout that goes through adds its transaction under a new id and a new key, moves every balance
-- by what that transaction contributes, and leaves the payment logs alone.
pub create_payout_tx-Posts :
    (s : Stamp) (u : Uuid) (dto : CreatePayoutDto) (db db' : Db) (t : Transaction)
    → create_payout_tx s u dto db ≡ ok (t, db')
    → Posts db t db'
unfolding effect
create_payout_tx-Posts s u dto db db' t e = record {
  posted = d.posted;
  moved = λ p j.
      balance-Rewrites p j (withdrawal_effect p initiated dto.amount) db db' d.old _ d.rewrites
        (held_delta p d.old dto.amount)
      ∙ ap (◌+ℤ◌ (balance p j db)) (rw d.row (held_share p d.old.id j dto.amount));
  fresh_id = d.fresh_id;
  fresh_key = d.fresh_key;
  no_log_yet = rw d.row;
  logs_kept = d.logs_kept;
}
  where
    d : PaidOut s dto db t db'
    d = create_payout_tx-PaidOut s u dto db db' t e

-- The wallet covers the payout: no available balance falls below zero.
pub create_payout_tx-covered :
    (s : Stamp) (u : Uuid) (dto : CreatePayoutDto) (db db' : Db) (t : Transaction) (j : Uuid)
    → create_payout_tx s u dto db ≡ ok (t, db')
    → pos 0 ≤ℤ balance available j db
    → pos 0 ≤ℤ balance available j db'
create_payout_tx-covered s u dto db db' t j e h =
    Rewrites-nonneg available j db db' d.old (held d.old dto.amount) d.rewrites
      (grind (int_laws, d.covered)) h
  where
    d : PaidOut s dto db t db'
    d = create_payout_tx-PaidOut s u dto db db' t e

pub amount_of_payout :
    (s : Stamp) (u : Uuid) (dto : CreatePayoutDto) (db db' : Db) (t : Transaction)
    → create_payout_tx s u dto db ≡ ok (t, db')
    → t.amount ≡ dto.amount
amount_of_payout s u dto db db' t e = rw (create_payout_tx-PaidOut s u dto db db' t e).row

pub key_of_payout :
    (s : Stamp) (u : Uuid) (dto : CreatePayoutDto) (db db' : Db) (t : Transaction)
    → create_payout_tx s u dto db ≡ ok (t, db')
    → t.idempotency_key ≡ dto.idempotency_key
key_of_payout s u dto db db' t e = rw (create_payout_tx-PaidOut s u dto db db' t e).row
