-- ===== src/Books/Conservation.antt =====
-- What the operations do to the balances of all wallets together.
use payment_wallet_system.Prelude.{◌≡◌, refl, inl, inr, Option-cases, Bool-cases, arith, ◌==◌}
use payment_wallet_system.Prelude.Int.{pos, ◌+ℤ◌, ◌-ℤ◌, int_laws}
use payment_wallet_system.Prelude.Lists.{sum_of}
use payment_wallet_system.Db.Schema.{Uuid, Decimal, Wallet, Transaction, Db}
use payment_wallet_system.Db.Table.{sum_of-replace}
use payment_wallet_system.Db.Tx.{Tx, Result, ok, err, with_transaction}
use payment_wallet_system.Db.Writes.{Stamp, find_key}
use payment_wallet_system.Wallet.{find_by_user_id}
use payment_wallet_system.Transaction.Service.{
  MoneyDto, TransferDto, fresh, replay_or, withdraw, withdraw_tx, transfer, transfer_between,
  transfer_tx,
}
use payment_wallet_system.Books.Effects.{Pot, available, locked, pending, in_pot, transfer_effect}
use payment_wallet_system.Books.Posting.{Rewrites}
use payment_wallet_system.Books.Withdrawals.{Withdrawn, withdraw_tx-Withdrawn, held, held_delta}
use payment_wallet_system.Books.Transfers.{
  Transferred, transfer_tx-Transferred, debited, credited, sender_delta, receiver_delta,
}

-- A balance of all wallets together.
abbrev pub total : Pot → Db → Decimal
total p db = sum_of (in_pot p) db.wallets

balanced : (x old mid new d : Decimal) → new ≡ old +ℤ d → x +ℤ old ≡ mid +ℤ new → x ≡ mid +ℤ d
balanced x old mid new d h e = grind int_laws

total-Rewrites :
    (p : Pot) (d : Decimal) (db db' : Db) (old new : Wallet)
    → Rewrites db old new db'
    → in_pot p new ≡ in_pot p old +ℤ d
    → total p db' ≡ total p db +ℤ d
total-Rewrites p d db db' old new r h =
    balanced _ (in_pot p old) _ (in_pot p new) d h
      (rw r.written (sum_of-replace (λ w. w.id) (in_pot p) old.id new old db.wallets r.found))

there_and_back :
    (p : Pot) (x y z a : Decimal)
    → y ≡ x +ℤ transfer_effect p a (pos 0)
    → z ≡ y +ℤ transfer_effect p (pos 0) a
    → z ≡ x
there_and_back available x y z a h k = grind int_laws
there_and_back locked x y z a h k = grind int_laws
there_and_back pending x y z a h k = grind int_laws

moved_over : (x x' y y' a : Decimal) → x' ≡ x +ℤ (pos 0 -ℤ a) → y' ≡ y +ℤ a → x' +ℤ y' ≡ x +ℤ y
moved_over x x' y y' a h k = grind int_laws

-- A transfer's callback takes from one wallet what it gives to the other.
transfer_tx-total :
    (s : Stamp) (u from to : Uuid) (dto : TransferDto) (db db' : Db) (t : Transaction) (p : Pot)
    → transfer_tx s u from to dto db ≡ ok (t, db')
    → total p db' ≡ total p db
transfer_tx-total s u from to dto db db' t p e =
    there_and_back p _ _ _ dto.amount
      (total-Rewrites p _ db d.mid d.sender (debited d.sender dto.amount) d.debits
        (sender_delta p d.sender dto.amount))
      (total-Rewrites p _ d.mid db' d.receiver (credited d.receiver dto.amount) d.credits
        (receiver_delta p d.receiver dto.amount))
  where
    d : Transferred s from to dto db t db'
    d = transfer_tx-Transferred s u from to dto db db' t e

-- A property of two databases that holds of what a call commits holds of what the call leaves.
module _ (Q : Db → Db → Type 0) (same : (db : Db) → Q db db) where
  with_transaction-keeps :
      {A : Type 0} (m : Tx A) (db : Db) (r : Result (A × Db))
      → m db ≡ r
      → ((a : A) (db' : Db) → m db ≡ ok (a, db') → Q db db')
      → Q db (with_transaction m db).1
  with_transaction-keeps m db (ok (a, db')) e h = rw (e, with_transaction) (h a db' e)
  with_transaction-keeps m db (err x) e h = rw (e, with_transaction) (same db)

  fresh-keeps : (db : Db) (p : Result Transaction × Db) → Q db p.1 → Q db (fresh p).1
  fresh-keeps db (ok t, db') h = h
  fresh-keeps db (err e, db') h = h

  replay_or-keeps :
      (key : Uuid) (m : Tx Transaction) (db : Db)
      → ((t : Transaction) (db' : Db) → m db ≡ ok (t, db') → Q db db')
      → Q db (replay_or key m db).1
  replay_or-keeps key m db h = elim (Option-cases (find_key key db)) [
    | inl unseen ↦
        rw (unseen, replay_or)
          (fresh-keeps db (with_transaction m db) (with_transaction-keeps m db _ refl h))
    | inr (t, seen) ↦ rw (seen, replay_or) (same db)
  ]

transfer_between-total :
    (s : Stamp) (u : Uuid) (dto : TransferDto) (db db' : Db) (t : Transaction) (p : Pot)
    → transfer_between s u dto db ≡ ok (t, db')
    → total p db' ≡ total p db
transfer_between-total s u dto db db' t p e = elim (Option-cases (find_by_user_id u db)) [
  | inl missing ↦ ground arith
  | inr (a, ea) ↦ elim (Option-cases (find_by_user_id dto.recipient_user_id db)) [
    | inl missing ↦ ground arith
    | inr (b, eb) ↦ transfer_tx-total s u a.id b.id dto db db' t p (ground arith)
  ]
]

-- A transfer neither makes nor destroys money: whatever is requested, and however the call ends, the
-- available, the locked and the pending balances of all wallets together are what they were.
pub transfer-conserves :
    (s : Stamp) (u : Uuid) (dto : TransferDto) (db : Db) (p : Pot)
    → total p (transfer s u dto db).1 ≡ total p db
unfolding transfer
transfer-conserves s u dto db p = elim (Bool-cases (u == dto.recipient_user_id)) [
  | inl self ↦ rw self refl
  | inr other ↦ rw other (
      replay_or-keeps (λ before after. total p after ≡ total p before) (λ _. refl)
        dto.idempotency_key (transfer_between s u dto) db
        (λ t db' e. transfer_between-total s u dto db db' t p e))
]

withdraw_tx-total :
    (s : Stamp) (u : Uuid) (dto : MoneyDto) (db db' : Db) (t : Transaction)
    → withdraw_tx s u dto db ≡ ok (t, db')
    → total available db' +ℤ total locked db' ≡ total available db +ℤ total locked db
withdraw_tx-total s u dto db db' t e =
    moved_over _ _ _ _ dto.amount
      (total-Rewrites available _ db db' d.old (held d.old dto.amount) d.rewrites
        (held_delta available d.old dto.amount))
      (total-Rewrites locked _ db db' d.old (held d.old dto.amount) d.rewrites
        (held_delta locked d.old dto.amount))
  where
    d : Withdrawn s dto db t db'
    d = withdraw_tx-Withdrawn s u dto db db' t e

-- A withdrawal only sets money aside: however the call ends, what is available and what is locked in
-- all wallets together is what it was.
pub withdraw-conserves :
    (s : Stamp) (u : Uuid) (dto : MoneyDto) (db : Db)
    → total available (withdraw s u dto db).1 +ℤ total locked (withdraw s u dto db).1
      ≡ total available db +ℤ total locked db
unfolding withdraw
withdraw-conserves s u dto db =
    replay_or-keeps
      (λ before after.
        total available after +ℤ total locked after ≡ total available before +ℤ total locked before)
      (λ _. refl) dto.idempotency_key (withdraw_tx s u dto) db
      (λ t db' e. withdraw_tx-total s u dto db db' t e)
