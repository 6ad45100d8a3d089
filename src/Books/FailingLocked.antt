-- ===== src/Books/FailingLocked.antt =====
-- What `failWithdrawal` does to the books.
use payment_wallet_system.Prelude.{
  ◌≡◌, refl, inl, inr, some, true, arith, Option, none, Option-cases, if◌then◌else◌, ◌==◌, sym, ◌∙◌,
}
use payment_wallet_system.Prelude.Int.{pos, ◌+ℤ◌, ◌-ℤ◌, ◌≤ℤ◌, int_laws}
use payment_wallet_system.Db.Schema.{
  Uuid, Decimal, Wallet, Transaction, TransactionType, TransactionStatus, failed, initiated,
  withdrawal_type, Db,
}
use payment_wallet_system.Db.Table.{replace, find_unique-column, find_unique_self}
use payment_wallet_system.Db.Tx.{ok}
use payment_wallet_system.Db.Writes.{Stamp, find_wallet, find_transaction, find_log}
use payment_wallet_system.Payment.Providers.{ProviderResult}
use payment_wallet_system.Payment.Settlement.{TransactionContext, record_outcome, fail_locked}
use payment_wallet_system.Books.Effects.{
  Pot, available, locked, pending, in_pot, effect, share, withdrawal_effect, effect_of, log_fits,
  LogsMatch,
}
use payment_wallet_system.Books.Outcomes.{record_outcome-Logged}
use payment_wallet_system.Books.Settling.{rewritten}
use payment_wallet_system.Books.Resolving.{open_before, Describes, Resolves, resolve}

abbrev restored : Wallet → Decimal → Wallet
restored w a = record w {
  locked_balance = w.locked_balance -ℤ a;
  available_balance = w.available_balance +ℤ a;
}

abbrev failed_row : Transaction → Transaction
failed_row t = record t { status = failed }

abbrev failed_at : Uuid → Transaction → Uuid → Wallet → Db → Db
failed_at id t wallet_id w db = record db {
  wallets = replace (λ v. v.id) wallet_id w db.wallets;
  transactions = replace (λ v. v.id) id (failed_row t) db.transactions;
}

-- The two steps of a failed withdrawal.
record FailedWithdrawal (s : Stamp) (ctx : TransactionContext) (event_id : Uuid)
    (r : ProviderResult) (old : Transaction) (db db' : Db) : Type 0 where
  w : Wallet
  party : ctx.sender_wallet_id ≡ some w.id
  found : find_wallet w.id db ≡ some w
  finishes :
      record_outcome s ctx event_id r failed (failed_at ctx.id old w.id (restored w ctx.amount) db)
      ≡ ok (tt, db')

fail_locked-steps :
    (s : Stamp) (ctx : TransactionContext) (event_id : Uuid) (r : ProviderResult)
    (old : Transaction) (db db' : Db)
    → find_transaction ctx.id db ≡ some old
    → fail_locked s ctx event_id r db ≡ ok (tt, db')
    → FailedWithdrawal s ctx event_id r old db db'
unfolding fail_locked
fail_locked-steps s ctx event_id r old db db' f e = elim (Option-cases ctx.sender_wallet_id) [
  | inl missing ↦ ground arith
  | inr (id, to) ↦ elim (Option-cases (find_wallet id db)) [
    | inl missing ↦ ground arith
    | inr (w, got) ↦
        let same = find_unique-column (λ (v : Wallet). v.id) id db.wallets w got in
        record {
          w = w;
          party = ground arith;
          found = find_unique_self (λ (v : Wallet). v.id) id db.wallets w got;
          finishes = ground arith;
        }
  ]
]

abbrev withdrawal_shift : Decimal → Pot → Decimal
withdrawal_shift a p = withdrawal_effect p failed a -ℤ withdrawal_effect p initiated a

restored_delta :
    (a : Decimal) (w : Wallet) (p : Pot)
    → in_pot p (restored w a) ≡ in_pot p w +ℤ withdrawal_shift a p
restored_delta a w available = grind int_laws
restored_delta a w locked = grind int_laws
restored_delta a w pending = grind int_laws

withdrawal_fails :
    (a : Decimal) (id j : Uuid) (s : TransactionStatus) (p : Pot)
    → log_fits withdrawal_type s true ≡ true
    → withdrawal_effect p failed (share j (some id) a)
      ≡ withdrawal_effect p s (share j (some id) a)
        +ℤ (if id == j then withdrawal_shift a p else pos 0)
withdrawal_fails a id j s available h = grind int_laws
withdrawal_fails a id j s locked h = grind int_laws
withdrawal_fails a id j s pending h = grind int_laws

failed_effect :
    (a : Decimal) (id j : Uuid) (k : TransactionType) (s : TransactionStatus)
    (from to : Option Uuid) (b : Decimal) (p : Pot)
    → k ≡ withdrawal_type
    → from ≡ some id
    → a ≡ b
    → log_fits k s true ≡ true
    → effect_of p j k failed from to b
      ≡ effect_of p j k s from to b +ℤ (if id == j then withdrawal_shift a p else pos 0)
failed_effect a id j k s from to b p ek et eb h =
    rw (ek, et, ← eb) (withdrawal_fails a id j s p (rw ek at h))

gain_of : (a b : Decimal) → a ≡ b → pos 0 ≤ℤ b → pos 0 ≤ℤ withdrawal_shift a available
gain_of a b e h = rw e (grind int_laws)

-- A withdrawal that fails was open, and its locked amount is available again.
pub fail_locked-Resolves :
    (s : Stamp) (ctx : TransactionContext) (event_id : Uuid) (r : ProviderResult) (db db' : Db)
    (old : Transaction)
    → LogsMatch db
    → find_transaction ctx.id db ≡ some old
    → Describes ctx old
    → old.type ≡ withdrawal_type
    → fail_locked s ctx event_id r db ≡ ok (tt, db')
    → Resolves ctx.id db old (failed_row old) db'
unfolding effect
fail_locked-Resolves s ctx event_id r db db' old match f same kind e =
    resolve ctx.id db (rewritten d.w.id (restored d.w ctx.amount) db)
      (failed_at ctx.id old d.w.id (restored d.w ctx.amount) db) db' old (failed_row old) d.w
      (restored d.w ctx.amount) (withdrawal_shift ctx.amount) f
      (record { found = d.found; same_id = refl; written = refl }) refl refl
      (record { written = refl; wallets_kept = refl; logs_kept = refl })
      (record_outcome-Logged s ctx event_id r failed _ db' d.finishes) refl refl refl (rw kind)
      (restored_delta ctx.amount d.w) shift gain
  where
    d : FailedWithdrawal s ctx event_id r old db db'
    d = fail_locked-steps s ctx event_id r old db db' f e

    shift :
        find_log ctx.id db ≡ none
        → (p : Pot) (j : Uuid)
        → effect p j (failed_row old)
          ≡ effect p j old +ℤ (if d.w.id == j then withdrawal_shift ctx.amount p else pos 0)
    shift n p j =
        failed_effect ctx.amount d.w.id j old.type old.status old.sender_wallet_id
          old.receiver_wallet_id old.amount p kind (sym same.same_sender ∙ d.party) same.same_amount
          (open_before ctx.id db old match f n)

    gain : pos 0 ≤ℤ old.amount → pos 0 ≤ℤ withdrawal_shift ctx.amount available
    gain h = gain_of ctx.amount old.amount same.same_amount h
