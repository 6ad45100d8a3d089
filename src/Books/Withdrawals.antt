-- ===== src/Books/Withdrawals.antt =====
-- What `TransactionService.withdraw` posts.
use payment_wallet_system.Prelude.{
  ◌≡◌, inl, inr, some, none, ◌++◌, [], ◌∷◌, arith, Option-cases, ◌==◌, if◌then◌else◌, ◌∙◌, ap,
}
use payment_wallet_system.Prelude.Int.{pos, ◌+ℤ◌, ◌-ℤ◌, ◌≤ℤ◌, int_laws}
use payment_wallet_system.Db.Schema.{Uuid, Decimal, Wallet, Transaction, Db, internal, initiated}
use payment_wallet_system.Db.Table.{find_unique-column}
use payment_wallet_system.Db.Tx.{ok}
use payment_wallet_system.Db.Writes.{Stamp, find_wallet, find_transaction, find_key}
use payment_wallet_system.Wallet.{find_by_user_id}
use payment_wallet_system.Transaction.{CreateTransactionInput, withdrawal_row}
use payment_wallet_system.Transaction.Service.{MoneyDto, withdraw_tx}
use payment_wallet_system.Books.Effects.{
  Pot, available, locked, pending, in_pot, balance, effect, share, withdrawal_effect,
}
use payment_wallet_system.Books.Posting.{Rewrites, balance-Rewrites, Rewrites-nonneg, Posts}

abbrev pub withdrawal_input : MoneyDto → Uuid → CreateTransactionInput
withdrawal_input dto id = record {
  idempotency_key = dto.idempotency_key;
  amount = dto.amount;
  currency = dto.currency;
  description = dto.description;
  sender_wallet_id = some id;
  receiver_wallet_id = none;
  provider = some internal;
}

abbrev pub held : Wallet → Decimal → Wallet
held w a = record w {
  available_balance = w.available_balance -ℤ a;
  locked_balance = w.locked_balance +ℤ a;
}

-- What a withdrawal that went through has read and written.
pub record Withdrawn (s : Stamp) (dto : MoneyDto) (db : Db) (t : Transaction) (db' : Db)
    : Type 0 where
  pub old : Wallet
  pub covered : dto.amount ≤ℤ old.available_balance
  pub rewrites : Rewrites db old (held old dto.amount) db'
  pub row : t ≡ withdrawal_row s (withdrawal_input dto old.id)
  pub posted : db'.transactions ≡ db.transactions ++ t ∷ []
  pub fresh_id : find_transaction t.id db ≡ none
  pub fresh_key : find_key t.idempotency_key db ≡ none
  pub logs_kept : db'.payment_logs ≡ db.payment_logs

pub withdraw_tx-Withdrawn :
    (s : Stamp) (u : Uuid) (dto : MoneyDto) (db db' : Db) (t : Transaction)
    → withdraw_tx s u dto db ≡ ok (t, db')
    → Withdrawn s dto db t db'
unfolding withdraw_tx
withdraw_tx-Withdrawn s u dto db db' t e = elim (Option-cases (find_by_user_id u db)) [
  | inl missing ↦ ground arith
  | inr (w, found) ↦ elim (Option-cases (find_wallet w.id db)) [
    | inl missing ↦ ground arith
    | inr (old, got) ↦
        let same = find_unique-column (λ (v : Wallet). v.id) w.id db.wallets old got in
        record {
          old = old;
          covered = ground arith;
          rewrites = ground arith;
          row = ground arith;
          posted = ground arith;
          fresh_id = ground arith;
          fresh_key = ground arith;
          logs_kept = ground arith;
        }
  ]
]

pub held_delta :
    (p : Pot) (w : Wallet) (a : Decimal)
    → in_pot p (held w a) ≡ in_pot p w +ℤ withdrawal_effect p initiated a
held_delta available w a = grind int_laws
held_delta locked w a = grind int_laws
held_delta pending w a = grind int_laws

pub held_share :
    (p : Pot) (id j : Uuid) (a : Decimal)
    → (if id == j then withdrawal_effect p initiated a else pos 0)
      ≡ withdrawal_effect p initiated (share j (some id) a)
held_share available id j a = grind int_laws
held_share locked id j a = grind int_laws
held_share pending id j a = grind int_laws

-- A withdrawal posts its transaction: the amount leaves what is available and is locked.
pub withdraw_tx-Posts :
    (s : Stamp) (u : Uuid) (dto : MoneyDto) (db db' : Db) (t : Transaction)
    → withdraw_tx s u dto db ≡ ok (t, db')
    → Posts db t db'
unfolding effect
withdraw_tx-Posts s u dto db db' t e = record {
  posted = d.posted;
  moved = λ p j.
      balance-Rewrites p j (withdrawal_effect p initiated dto.amount) db db' d.old _ d.rewrites
        (held_delta p d.old dto.amount)
      ∙ ap (◌+ℤ◌ (balance p j db)) (rw d.row (held_share p d.old.id j dto.amount));
  fresh_id = d.fresh_id;
  fresh_key = d.fresh_key;
  no_log_yet = rw d.row;
  logs_kept = d.logs_kept;
}
  where
    d : Withdrawn s dto db t db'
    d = withdraw_tx-Withdrawn s u dto db db' t e

-- The sender can pay: no available balance falls below zero.
pub withdraw_tx-covered :
    (s : Stamp) (u : Uuid) (dto : MoneyDto) (db db' : Db) (t : Transaction) (j : Uuid)
    → withdraw_tx s u dto db ≡ ok (t, db')
    → pos 0 ≤ℤ balance available j db
    → pos 0 ≤ℤ balance available j db'
withdraw_tx-covered s u dto db db' t j e h =
    Rewrites-nonneg available j db db' d.old (held d.old dto.amount) d.rewrites
      (grind (int_laws, d.covered)) h
  where
    d : Withdrawn s dto db t db'
    d = withdraw_tx-Withdrawn s u dto db db' t e

pub amount_of_withdrawal :
    (s : Stamp) (u : Uuid) (dto : MoneyDto) (db db' : Db) (t : Transaction)
    → withdraw_tx s u dto db ≡ ok (t, db')
    → t.amount ≡ dto.amount
amount_of_withdrawal s u dto db db' t e = rw (withdraw_tx-Withdrawn s u dto db db' t e).row

pub key_of_withdrawal :
    (s : Stamp) (u : Uuid) (dto : MoneyDto) (db db' : Db) (t : Transaction)
    → withdraw_tx s u dto db ≡ ok (t, db')
    → t.idempotency_key ≡ dto.idempotency_key
key_of_withdrawal s u dto db db' t e = rw (withdraw_tx-Withdrawn s u dto db db' t e).row
