-- ===== src/Books/SettlingLocked.antt =====
-- What `settleWithdrawal` does to the books.
use payment_wallet_system.Prelude.{
  ◌≡◌, refl, inl, inr, some, true, arith, Option, none, Option-cases, if◌then◌else◌, ◌==◌, sym, ◌∙◌,
}
use payment_wallet_system.Prelude.Int.{pos, ◌+ℤ◌, ◌-ℤ◌, ◌≤ℤ◌, int_laws}
use payment_wallet_system.Db.Schema.{
  Uuid, Decimal, Wallet, Transaction, TransactionType, TransactionStatus, settled, initiated, debit,
  withdrawal_type, Db,
}
use payment_wallet_system.Db.Table.{find_unique-column, find_unique_self}
use payment_wallet_system.Db.Tx.{ok, Result-cases}
use payment_wallet_system.Db.Writes.{Stamp, find_wallet, find_transaction, find_log}
use payment_wallet_system.Payment.Providers.{ProviderResult}
use payment_wallet_system.Payment.Repository.{truthy}
use payment_wallet_system.Payment.Settlement.{
  TransactionContext, mark_settled, record_outcome, settle_locked,
}
use payment_wallet_system.Books.Effects.{
  Pot, available, locked, pending, in_pot, effect, share, withdrawal_effect, effect_of, log_fits,
  LogsMatch,
}
use payment_wallet_system.Books.Outcomes.{settled_row, mark_settled-Marked, record_outcome-Logged}
use payment_wallet_system.Books.Settling.{rewritten}
use payment_wallet_system.Books.Resolving.{open_before, Describes, Resolves, resolve}

abbrev paid : Wallet → Decimal → Wallet
paid w a = record w { locked_balance = w.locked_balance -ℤ a }

-- The three steps of a settled withdrawal.
record SettledWithdrawal (s : Stamp) (ctx : TransactionContext) (event_id : Uuid)
    (r : ProviderResult) (db db' : Db) : Type 0 where
  w : Wallet
  sender : ctx.sender_wallet_id ≡ some w.id
  found : find_wallet w.id db ≡ some w
  marked : Db
  marks :
      mark_settled s ctx w.id debit
        (w.locked_balance -ℤ ctx.amount)
        r
        (rewritten w.id (paid w ctx.amount) db)
      ≡ ok (tt, marked)
  finishes : record_outcome s ctx event_id r settled marked ≡ ok (tt, db')

settle_locked-steps :
    (s : Stamp) (ctx : TransactionContext) (event_id : Uuid) (r : ProviderResult) (db db' : Db)
    → settle_locked s ctx event_id r db ≡ ok (tt, db')
    → SettledWithdrawal s ctx event_id r db db'
unfolding settle_locked
settle_locked-steps s ctx event_id r db db' e = elim (Option-cases ctx.sender_wallet_id) [
  | inl missing ↦ ground arith
  | inr (id, to) ↦ elim (Option-cases (find_wallet id db)) [
    | inl missing ↦ ground arith
    | inr (w, got) ↦
        let same = find_unique-column (λ (v : Wallet). v.id) id db.wallets w got in
        elim (Result-cases (
          mark_settled s ctx w.id debit (w.locked_balance -ℤ ctx.amount) r
            (rewritten w.id (paid w ctx.amount) db))) [
              | inr (x, thrown) ↦ ground arith
              | inl (marked, marks) ↦ record {
                w = w;
                sender = ground arith;
                found = find_unique_self (λ (v : Wallet). v.id) id db.wallets w got;
                marked = marked;
                marks = marks;
                finishes = ground arith;
              }
            ]
  ]
]

abbrev withdrawal_shift : Decimal → Pot → Decimal
withdrawal_shift a p = withdrawal_effect p settled a -ℤ withdrawal_effect p initiated a

paid_delta :
    (a : Decimal) (w : Wallet) (p : Pot) → in_pot p (paid w a) ≡ in_pot p w +ℤ withdrawal_shift a p
paid_delta a w available = grind int_laws
paid_delta a w locked = grind int_laws
paid_delta a w pending = grind int_laws

withdrawal_settles :
    (a : Decimal) (id j : Uuid) (s : TransactionStatus) (p : Pot)
    → log_fits withdrawal_type s true ≡ true
    → withdrawal_effect p settled (share j (some id) a)
      ≡ withdrawal_effect p s (share j (some id) a)
        +ℤ (if id == j then withdrawal_shift a p else pos 0)
withdrawal_settles a id j s available h = grind int_laws
withdrawal_settles a id j s locked h = grind int_laws
withdrawal_settles a id j s pending h = grind int_laws

settled_effect :
    (a : Decimal) (id j : Uuid) (k : TransactionType) (s : TransactionStatus)
    (from to : Option Uuid) (b : Decimal) (p : Pot)
    → k ≡ withdrawal_type
    → from ≡ some id
    → a ≡ b
    → log_fits k s true ≡ true
    → effect_of p j k settled from to b
      ≡ effect_of p j k s from to b +ℤ (if id == j then withdrawal_shift a p else pos 0)
settled_effect a id j k s from to b p ek et eb h =
    rw (ek, et, ← eb) (withdrawal_settles a id j s p (rw ek at h))

gain_of : (a b : Decimal) → a ≡ b → pos 0 ≤ℤ b → pos 0 ≤ℤ withdrawal_shift a available
gain_of a b e h = rw e (grind int_laws)

-- A withdrawal that is settled was open, and its locked amount has left the wallet.
pub settle_locked-Resolves :
    (s : Stamp) (ctx : TransactionContext) (event_id : Uuid) (r : ProviderResult) (db db' : Db)
    (old : Transaction)
    → LogsMatch db
    → find_transaction ctx.id db ≡ some old
    → Describes ctx old
    → old.type ≡ withdrawal_type
    → settle_locked s ctx event_id r db ≡ ok (tt, db')
    → Resolves ctx.id db old (settled_row s.now (truthy r.provider_ref) old) db'
unfolding effect
settle_locked-Resolves s ctx event_id r db db' old match f same kind e =
    resolve ctx.id db (rewritten d.w.id (paid d.w ctx.amount) db) d.marked db' old
      (settled_row s.now (truthy r.provider_ref) old) d.w (paid d.w ctx.amount)
      (withdrawal_shift ctx.amount) f (record { found = d.found; same_id = refl; written = refl })
      refl refl (mark_settled-Marked s ctx d.w.id debit _ r old _ d.marked f d.marks)
      (record_outcome-Logged s ctx event_id r settled d.marked db' d.finishes) refl refl refl
      (rw kind) (paid_delta ctx.amount d.w) shift gain
  where
    d : SettledWithdrawal s ctx event_id r db db'
    d = settle_locked-steps s ctx event_id r db db' e

    shift :
        find_log ctx.id db ≡ none
        → (p : Pot) (j : Uuid)
        → effect p j (settled_row s.now (truthy r.provider_ref) old)
          ≡ effect p j old +ℤ (if d.w.id == j then withdrawal_shift ctx.amount p else pos 0)
    shift n p j =
        settled_effect ctx.amount d.w.id j old.type old.status old.sender_wallet_id
          old.receiver_wallet_id old.amount p kind (sym same.same_sender ∙ d.sender)
          same.same_amount (open_before ctx.id db old match f n)

    gain : pos 0 ≤ℤ old.amount → pos 0 ≤ℤ withdrawal_shift ctx.amount available
    gain h = gain_of ctx.amount old.amount same.same_amount h
