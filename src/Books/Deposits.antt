-- ===== src/Books/Deposits.antt =====
-- What `TransactionService.deposit` posts.
use payment_wallet_system.Prelude.{
  ◌≡◌, Bool, true, false, inl, inr, some, none, ◌++◌, [], ◌∷◌, arith, Option-cases, ◌==◌,
  if◌then◌else◌, ◌∙◌, ap,
}
use payment_wallet_system.Prelude.Int.{pos, ◌+ℤ◌, ◌≤ℤ◌, int_laws}
use payment_wallet_system.Db.Schema.{Uuid, Decimal, Wallet, Transaction, Db, internal, initiated}
use payment_wallet_system.Db.Table.{find_unique-column}
use payment_wallet_system.Db.Tx.{ok}
use payment_wallet_system.Db.Writes.{Stamp, find_wallet, find_transaction, find_key}
use payment_wallet_system.Wallet.{find_by_user_id}
use payment_wallet_system.Transaction.{CreateTransactionInput, deposit_row}
use payment_wallet_system.Transaction.Service.{MoneyDto, deposit_tx}
use payment_wallet_system.Books.Effects.{
  Pot, available, locked, pending, in_pot, balance, effect, share, deposit_effect,
}
use payment_wallet_system.Books.Posting.{Rewrites, balance-Rewrites, Posts}

abbrev pub deposit_input : MoneyDto → Uuid → CreateTransactionInput
deposit_input dto id = record {
  idempotency_key = dto.idempotency_key;
  amount = dto.amount;
  currency = dto.currency;
  description = dto.description;
  sender_wallet_id = none;
  receiver_wallet_id = some id;
  provider = some internal;
}

-- What a deposit that went through has read and written.
record Deposited (s : Stamp) (dto : MoneyDto) (db : Db) (t : Transaction) (db' : Db) : Type 0 where
  old : Wallet
  rewrites :
      Rewrites db old (record old { pending_balance = old.pending_balance +ℤ dto.amount }) db'
  row : t ≡ deposit_row s (deposit_input dto old.id)
  posted : db'.transactions ≡ db.transactions ++ t ∷ []
  fresh_id : find_transaction t.id db ≡ none
  fresh_key : find_key t.idempotency_key db ≡ none
  logs_kept : db'.payment_logs ≡ db.payment_logs

deposit_tx-Deposited :
    (s : Stamp) (u : Uuid) (dto : MoneyDto) (db db' : Db) (t : Transaction)
    → deposit_tx s u dto db ≡ ok (t, db')
    → Deposited s dto db t db'
unfolding deposit_tx
deposit_tx-Deposited s u dto db db' t e = elim (Option-cases (find_by_user_id u db)) [
  | inl missing ↦ ground arith
  | inr (w, found) ↦ elim (Option-cases (find_wallet w.id db)) [
    | inl missing ↦ ground arith
    | inr (old, held) ↦
        let same = find_unique-column (λ (w : Wallet). w.id) w.id db.wallets old held in
        record {
          old = old;
          rewrites = ground arith;
          row = ground arith;
          posted = ground arith;
          fresh_id = ground arith;
          fresh_key = ground arith;
          logs_kept = ground arith;
        }
  ]
]

pub pending_delta :
    (p : Pot) (w : Wallet) (a : Decimal)
    → in_pot p (record w { pending_balance = w.pending_balance +ℤ a })
      ≡ in_pot p w +ℤ deposit_effect p initiated a
pending_delta available w a = grind int_laws
pending_delta locked w a = grind int_laws
pending_delta pending w a = grind int_laws

pub pending_share :
    (p : Pot) (id j : Uuid) (a : Decimal)
    → (if id == j then deposit_effect p initiated a else pos 0)
      ≡ deposit_effect p initiated (share j (some id) a)
pending_share available id j a = ground arith
pending_share locked id j a = ground arith
pending_share pending id j a = ground arith

-- A deposit posts its transaction: the amount is pending, in the wallet of the user.
pub deposit_tx-Posts :
    (s : Stamp) (u : Uuid) (dto : MoneyDto) (db db' : Db) (t : Transaction)
    → deposit_tx s u dto db ≡ ok (t, db')
    → Posts db t db'
unfolding effect
deposit_tx-Posts s u dto db db' t e = record {
  posted = d.posted;
  moved = λ p j.
      balance-Rewrites p j (deposit_effect p initiated dto.amount) db db' d.old _ d.rewrites
        (pending_delta p d.old dto.amount)
      ∙ ap (◌+ℤ◌ (balance p j db)) (rw d.row (pending_share p d.old.id j dto.amount));
  fresh_id = d.fresh_id;
  fresh_key = d.fresh_key;
  no_log_yet = rw d.row;
  logs_kept = d.logs_kept;
}
  where
    d : Deposited s dto db t db'
    d = deposit_tx-Deposited s u dto db db' t e

pub sum_zero : (b : Bool) (x : Decimal) → x +ℤ (if b then pos 0 else pos 0) ≡ x
sum_zero true x = grind int_laws
sum_zero false x = grind int_laws

-- A deposit leaves every available balance alone.
pub deposit_tx-covered :
    (s : Stamp) (u : Uuid) (dto : MoneyDto) (db db' : Db) (t : Transaction) (j : Uuid)
    → deposit_tx s u dto db ≡ ok (t, db')
    → pos 0 ≤ℤ balance available j db
    → pos 0 ≤ℤ balance available j db'
deposit_tx-covered s u dto db db' t j e h =
    rw
      (
        balance-Rewrites available j (pos 0) db db' d.old _ d.rewrites
            (pending_delta available d.old dto.amount),
        sum_zero (d.old.id == j) (balance available j db),
      )
      h
  where
    d : Deposited s dto db t db'
    d = deposit_tx-Deposited s u dto db db' t e

pub amount_of_deposit :
    (s : Stamp) (u : Uuid) (dto : MoneyDto) (db db' : Db) (t : Transaction)
    → deposit_tx s u dto db ≡ ok (t, db')
    → t.amount ≡ dto.amount
amount_of_deposit s u dto db db' t e = rw (deposit_tx-Deposited s u dto db db' t e).row

pub key_of_deposit :
    (s : Stamp) (u : Uuid) (dto : MoneyDto) (db db' : Db) (t : Transaction)
    → deposit_tx s u dto db ≡ ok (t, db')
    → t.idempotency_key ≡ dto.idempotency_key
key_of_deposit s u dto db db' t e = rw (deposit_tx-Deposited s u dto db db' t e).row
