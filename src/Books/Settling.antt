-- ===== src/Books/Settling.antt =====
-- What `settleDeposit` does to the books.
use payment_wallet_system.Prelude.{
  ◌≡◌, refl, inl, inr, some, true, arith, Option, none, Option-cases, if◌then◌else◌, ◌==◌, sym, ◌∙◌,
}
use payment_wallet_system.Prelude.Int.{pos, ◌+ℤ◌, ◌-ℤ◌, ◌≤ℤ◌, int_laws}
use payment_wallet_system.Db.Schema.{
  Uuid, Decimal, Wallet, Transaction, TransactionType, TransactionStatus, settled, initiated,
  credit, deposit_type, Db,
}
use payment_wallet_system.Db.Table.{replace, find_unique-column, find_unique_self}
use payment_wallet_system.Db.Tx.{ok, Result-cases}
use payment_wallet_system.Db.Writes.{Stamp, find_wallet, find_transaction, find_log}
use payment_wallet_system.Payment.Providers.{ProviderResult}
use payment_wallet_system.Payment.Repository.{truthy}
use payment_wallet_system.Payment.Settlement.{
  TransactionContext, mark_settled, finish_deposit, settle_deposit,
}
use payment_wallet_system.Books.Effects.{
  Pot, available, locked, pending, in_pot, effect, share, deposit_effect, effect_of, log_fits,
  LogsMatch,
}
use payment_wallet_system.Books.Outcomes.{settled_row, mark_settled-Marked, finish_deposit-Logged}
use payment_wallet_system.Books.Resolving.{open_before, Describes, Resolves, resolve}

abbrev released : Wallet → Decimal → Wallet
released w a = record w {
  pending_balance = w.pending_balance -ℤ a;
  available_balance = w.available_balance +ℤ a;
}

abbrev pub rewritten : Uuid → Wallet → Db → Db
rewritten id w db = record db { wallets = replace (λ v. v.id) id w db.wallets }

-- The three steps of a settled deposit.
record SettledDeposit (s : Stamp) (ctx : TransactionContext) (event_id : Uuid) (r : ProviderResult)
    (db db' : Db) : Type 0 where
  w : Wallet
  receiver : ctx.receiver_wallet_id ≡ some w.id
  found : find_wallet w.id db ≡ some w
  marked : Db
  marks :
      mark_settled s ctx w.id credit
        (w.available_balance +ℤ ctx.amount)
        r
        (rewritten w.id (released w ctx.amount) db)
      ≡ ok (tt, marked)
  finishes : finish_deposit s ctx event_id r marked ≡ ok (tt, db')

settle_deposit-steps :
    (s : Stamp) (ctx : TransactionContext) (event_id : Uuid) (r : ProviderResult) (db db' : Db)
    → settle_deposit s ctx event_id r db ≡ ok (tt, db')
    → SettledDeposit s ctx event_id r db db'
unfolding settle_deposit
settle_deposit-steps s ctx event_id r db db' e = elim (Option-cases ctx.receiver_wallet_id) [
  | inl missing ↦ ground arith
  | inr (id, to) ↦ elim (Option-cases (find_wallet id db)) [
    | inl missing ↦ ground arith
    | inr (w, got) ↦
        let same = find_unique-column (λ (v : Wallet). v.id) id db.wallets w got in
        elim (Result-cases (
          mark_settled s ctx w.id credit (w.available_balance +ℤ ctx.amount) r
            (rewritten w.id (released w ctx.amount) db))) [
              | inr (x, thrown) ↦ ground arith
              | inl (marked, marks) ↦ record {
                w = w;
                receiver = ground arith;
                found = find_unique_self (λ (v : Wallet). v.id) id db.wallets w got;
                marked = marked;
                marks = marks;
                finishes = ground arith;
              }
            ]
  ]
]

abbrev deposit_shift : Decimal → Pot → Decimal
deposit_shift a p = deposit_effect p settled a -ℤ deposit_effect p initiated a

released_delta :
    (a : Decimal) (w : Wallet) (p : Pot) → in_pot p (released w a) ≡ in_pot p w +ℤ deposit_shift a p
released_delta a w available = grind int_laws
released_delta a w locked = grind int_laws
released_delta a w pending = grind int_laws

deposit_settles :
    (a : Decimal) (id j : Uuid) (s : TransactionStatus) (p : Pot)
    → log_fits deposit_type s true ≡ true
    → deposit_effect p settled (share j (some id) a)
      ≡ deposit_effect p s (share j (some id) a) +ℤ (if id == j then deposit_shift a p else pos 0)
deposit_settles a id j s available h = grind int_laws
deposit_settles a id j s locked h = grind int_laws
deposit_settles a id j s pending h = grind int_laws

settled_effect :
    (a : Decimal) (id j : Uuid) (k : TransactionType) (s : TransactionStatus)
    (from to : Option Uuid) (b : Decimal) (p : Pot)
    → k ≡ deposit_type
    → to ≡ some id
    → a ≡ b
    → log_fits k s true ≡ true
    → effect_of p j k settled from to b
      ≡ effect_of p j k s from to b +ℤ (if id == j then deposit_shift a p else pos 0)
settled_effect a id j k s from to b p ek et eb h =
    rw (ek, et, ← eb) (deposit_settles a id j s p (rw ek at h))

gain_of : (a b : Decimal) → a ≡ b → pos 0 ≤ℤ b → pos 0 ≤ℤ deposit_shift a available
gain_of a b e h = rw e (grind int_laws)

-- A deposit that is settled was open, and its amount has gone from pending to available.
pub settle_deposit-Resolves :
    (s : Stamp) (ctx : TransactionContext) (event_id : Uuid) (r : ProviderResult) (db db' : Db)
    (old : Transaction)
    → LogsMatch db
    → find_transaction ctx.id db ≡ some old
    → Describes ctx old
    → old.type ≡ deposit_type
    → settle_deposit s ctx event_id r db ≡ ok (tt, db')
    → Resolves ctx.id db old (settled_row s.now (truthy r.provider_ref) old) db'
unfolding effect
settle_deposit-Resolves s ctx event_id r db db' old match f same kind e =
    resolve ctx.id db (rewritten d.w.id (released d.w ctx.amount) db) d.marked db' old
      (settled_row s.now (truthy r.provider_ref) old) d.w (released d.w ctx.amount)
      (deposit_shift ctx.amount) f (record { found = d.found; same_id = refl; written = refl }) refl
      refl (mark_settled-Marked s ctx d.w.id credit _ r old _ d.marked f d.marks)
      (finish_deposit-Logged s ctx event_id r d.marked db' d.finishes) refl refl refl (rw kind)
      (released_delta ctx.amount d.w) shift gain
  where
    d : SettledDeposit s ctx event_id r db db'
    d = settle_deposit-steps s ctx event_id r db db' e

    shift :
        find_log ctx.id db ≡ none
        → (p : Pot) (j : Uuid)
        → effect p j (settled_row s.now (truthy r.provider_ref) old)
          ≡ effect p j old +ℤ (if d.w.id == j then deposit_shift ctx.amount p else pos 0)
    shift n p j =
        settled_effect ctx.amount d.w.id j old.type old.status old.sender_wallet_id
          old.receiver_wallet_id old.amount p kind (sym same.same_receiver ∙ d.receiver)
          same.same_amount (open_before ctx.id db old match f n)

    gain : pos 0 ≤ℤ old.amount → pos 0 ≤ℤ deposit_shift ctx.amount available
    gain h = gain_of ctx.amount old.amount same.same_amount h
