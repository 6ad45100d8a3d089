-- ===== src/Books/Failing.antt =====
-- What `failDeposit` does to the books.
use payment_wallet_system.Prelude.{
  ◌≡◌, refl, inl, inr, some, true, arith, Option, none, Option-cases, if◌then◌else◌, ◌==◌, sym, ◌∙◌,
}
use payment_wallet_system.Prelude.Int.{pos, ◌+ℤ◌, ◌-ℤ◌, ◌≤ℤ◌, int_laws}
use payment_wallet_system.Db.Schema.{
  Uuid, Decimal, Wallet, Transaction, TransactionType, TransactionStatus, failed, initiated,
  deposit_type, Db,
}
use payment_wallet_system.Db.Table.{replace, find_unique-column, find_unique_self}
use payment_wallet_system.Db.Tx.{ok}
use payment_wallet_system.Db.Writes.{Stamp, find_wallet, find_transaction, find_log}
use payment_wallet_system.Payment.Providers.{ProviderResult}
use payment_wallet_system.Payment.Settlement.{TransactionContext, record_outcome, fail_deposit}
use payment_wallet_system.Books.Effects.{
  Pot, available, locked, pending, in_pot, effect, share, deposit_effect, effect_of, log_fits,
  LogsMatch,
}
use payment_wallet_system.Books.Outcomes.{record_outcome-Logged}
use payment_wallet_system.Books.Settling.{rewritten}
use payment_wallet_system.Books.Resolving.{open_before, Describes, Resolves, resolve}

abbrev dropped : Wallet → Decimal → Wallet
dropped w a = record w { pending_balance = w.pending_balance -ℤ a }

abbrev failed_row : Transaction → Transaction
failed_row t = record t { status = failed }

abbrev failed_at : Uuid → Transaction → Uuid → Wallet → Db → Db
failed_at id t wallet_id w db = record db {
  wallets = replace (λ v. v.id) wallet_id w db.wallets;
  transactions = replace (λ v. v.id) id (failed_row t) db.transactions;
}

-- The two steps of a failed deposit.
record FailedDeposit (s : Stamp) (ctx : TransactionContext) (event_id : Uuid) (r : ProviderResult)
    (old : Transaction) (db db' : Db) : Type 0 where
  w : Wallet
  party : ctx.receiver_wallet_id ≡ some w.id
  found : find_wallet w.id db ≡ some w
  finishes :
      record_outcome s ctx event_id r failed (failed_at ctx.id old w.id (dropped w ctx.amount) db)
      ≡ ok (tt, db')

fail_deposit-steps :
    (s : Stamp) (ctx : TransactionContext) (event_id : Uuid) (r : ProviderResult)
    (old : Transaction) (db db' : Db)
    → find_transaction ctx.id db ≡ some old
    → fail_deposit s ctx event_id r db ≡ ok (tt, db')
    → FailedDeposit s ctx event_id r old db db'
unfolding fail_deposit
fail_deposit-steps s ctx event_id r old db db' f e = elim (Option-cases ctx.receiver_wallet_id) [
  | inl missing ↦ ground arith
  | inr (id, to) ↦ elim (Option-cases (find_wallet id db)) [
    | inl missing ↦ ground arith
    | inr (w, got) ↦
        let same = find_unique-column (λ (v : Wallet). v.id) id db.wallets w got in
        record {
          w = w;
          party = ground arith;
          found = find_unique_self (λ (v : Wallet). v.id) id db.wallets w got;
          finishes = ground arith;
        }
  ]
]

abbrev deposit_shift : Decimal → Pot → Decimal
deposit_shift a p = deposit_effect p failed a -ℤ deposit_effect p initiated a

dropped_delta :
    (a : Decimal) (w : Wallet) (p : Pot) → in_pot p (dropped w a) ≡ in_pot p w +ℤ deposit_shift a p
dropped_delta a w available = grind int_laws
dropped_delta a w locked = grind int_laws
dropped_delta a w pending = grind int_laws

deposit_fails :
    (a : Decimal) (id j : Uuid) (s : TransactionStatus) (p : Pot)
    → log_fits deposit_type s true ≡ true
    → deposit_effect p failed (share j (some id) a)
      ≡ deposit_effect p s (share j (some id) a) +ℤ (if id == j then deposit_shift a p else pos 0)
deposit_fails a id j s available h = grind int_laws
deposit_fails a id j s locked h = grind int_laws
deposit_fails a id j s pending h = grind int_laws

failed_effect :
    (a : Decimal) (id j : Uuid) (k : TransactionType) (s : TransactionStatus)
    (from to : Option Uuid) (b : Decimal) (p : Pot)
    → k ≡ deposit_type
    → to ≡ some id
    → a ≡ b
    → log_fits k s true ≡ true
    → effect_of p j k failed from to b
      ≡ effect_of p j k s from to b +ℤ (if id == j then deposit_shift a p else pos 0)
failed_effect a id j k s from to b p ek et eb h =
    rw (ek, et, ← eb) (deposit_fails a id j s p (rw ek at h))

gain_of : (a b : Decimal) → a ≡ b → pos 0 ≤ℤ b → pos 0 ≤ℤ deposit_shift a available
gain_of a b e h = grind int_laws

-- A deposit that fails was open, and its amount is no longer pending.
pub fail_deposit-Resolves :
    (s : Stamp) (ctx : TransactionContext) (event_id : Uuid) (r : ProviderResult) (db db' : Db)
    (old : Transaction)
    → LogsMatch db
    → find_transaction ctx.id db ≡ some old
    → Describes ctx old
    → old.type ≡ deposit_type
    → fail_deposit s ctx event_id r db ≡ ok (tt, db')
    → Resolves ctx.id db old (failed_row old) db'
unfolding effect
fail_deposit-Resolves s ctx event_id r db db' old match f same kind e =
    resolve ctx.id db (rewritten d.w.id (dropped d.w ctx.amount) db)
      (failed_at ctx.id old d.w.id (dropped d.w ctx.amount) db) db' old (failed_row old) d.w
      (dropped d.w ctx.amount) (deposit_shift ctx.amount) f
      (record { found = d.found; same_id = refl; written = refl }) refl refl
      (record { written = refl; wallets_kept = refl; logs_kept = refl })
      (record_outcome-Logged s ctx event_id r failed _ db' d.finishes) refl refl refl (rw kind)
      (dropped_delta ctx.amount d.w) shift gain
  where
    d : FailedDeposit s ctx event_id r old db db'
    d = fail_deposit-steps s ctx event_id r old db db' f e

    shift :
        find_log ctx.id db ≡ none
        → (p : Pot) (j : Uuid)
        → effect p j (failed_row old)
          ≡ effect p j old +ℤ (if d.w.id == j then deposit_shift ctx.amount p else pos 0)
    shift n p j =
        failed_effect ctx.amount d.w.id j old.type old.status old.sender_wallet_id
          old.receiver_wallet_id old.amount p kind (sym same.same_receiver ∙ d.party)
          same.same_amount (open_before ctx.id db old match f n)

    gain : pos 0 ≤ℤ old.amount → pos 0 ≤ℤ deposit_shift ctx.amount available
    gain h = gain_of ctx.amount old.amount same.same_amount h
