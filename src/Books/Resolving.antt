-- ===== src/Books/Resolving.antt =====
-- How a provider's outcome changes the books: a wallet is rewritten, the transaction's row is
-- replaced, and a payment log is added.
use payment_wallet_system.Prelude.{
  ◌≡◌, Bool, some, none, true, false, ◌++◌, [], ◌∷◌, arith, ◌∙◌, ap, sym, if◌then◌else◌, ◌==◌,
}
use payment_wallet_system.Prelude.Int.{pos, ◌+ℤ◌, ◌≤ℤ◌, int_laws}
use payment_wallet_system.Db.Schema.{Uuid, Decimal, Wallet, Transaction, PaymentLog, Db}
use payment_wallet_system.Db.Table.{replace, find_unique}
use payment_wallet_system.Db.Writes.{find_transaction, find_log}
use payment_wallet_system.Payment.Settlement.{TransactionContext}
use payment_wallet_system.Books.Effects.{
  Pot, available, balance, balance_in, effect, in_pot, log_fits, LogsMatch,
}
use payment_wallet_system.Books.Posting.{Rewrites, balance-Rewrites}
use payment_wallet_system.Books.Outcomes.{Logged, Marked}

-- The context was made from this row, at whatever time: what a row's outcome can change is not
-- compared.
pub record Describes (ctx : TransactionContext) (t : Transaction) : Type 0 where
  pub same_type : ctx.type ≡ t.type
  pub same_amount : ctx.amount ≡ t.amount
  pub same_sender : ctx.sender_wallet_id ≡ t.sender_wallet_id
  pub same_receiver : ctx.receiver_wallet_id ≡ t.receiver_wallet_id

-- `old` has become `new`, which is final, with the balances moved by the difference of the two and
-- the first payment log of the transaction.
pub record Resolves (id : Uuid) (db : Db) (old new : Transaction) (db' : Db) : Type 0 where
  pub found : find_transaction id db ≡ some old
  pub same_id : new.id ≡ old.id
  pub same_key : new.idempotency_key ≡ old.idempotency_key
  pub same_amount : new.amount ≡ old.amount
  pub written : db'.transactions ≡ replace (λ t. t.id) id new db.transactions
  pub moved :
      (p : Pot) (j : Uuid) → balance p j db' +ℤ effect p j old ≡ balance p j db +ℤ effect p j new
  pub log : PaymentLog
  pub of_transaction : log.transaction_id ≡ id
  pub first : find_log id db ≡ none
  pub logged : db'.payment_logs ≡ db.payment_logs ++ log ∷ []
  pub is_final : log_fits new.type new.status false ≡ true
  pub gains : pos 0 ≤ℤ old.amount → (j : Uuid) → effect available j old ≤ℤ effect available j new

-- A log that is the first of its transaction, in books that match, is that of an open transaction.
pub open_before :
    (id : Uuid) (db : Db) (old : Transaction)
    → LogsMatch db
    → find_transaction id db ≡ some old
    → find_log id db ≡ none
    → log_fits old.type old.status true ≡ true
open_before id db old m f n = ground (arith, m id)

regroup : (b d x y c : Decimal) → c ≡ b +ℤ d → y ≡ x +ℤ d → c +ℤ x ≡ b +ℤ y
regroup b d x y c h k = grind int_laws

raised : (x y c : Decimal) → pos 0 ≤ℤ c → y ≡ x +ℤ c → x ≤ℤ y
raised x y c h e = rw e (grind int_laws)

-- The three parts of an outcome together.
pub resolve :
    (id : Uuid) (db mid marked db' : Db) (old new : Transaction) (w w' : Wallet) (d : Pot → Decimal)
    → find_transaction id db ≡ some old
    → Rewrites db w w' mid
    → mid.transactions ≡ db.transactions
    → mid.payment_logs ≡ db.payment_logs
    → Marked new id mid marked
    → (l : Logged id marked db') → new.id ≡ old.id
    → new.idempotency_key ≡ old.idempotency_key
    → new.amount ≡ old.amount
    → log_fits new.type new.status false ≡ true
    → ((p : Pot) → in_pot p w' ≡ in_pot p w +ℤ d p)
    → (find_log id db ≡ none
        → (p : Pot) (j : Uuid)
        → effect p j new ≡ effect p j old +ℤ (if w.id == j then d p else pos 0))
    → (pos 0 ≤ℤ old.amount → pos 0 ≤ℤ d available)
    → Resolves id db old new db'
resolve id db mid marked db' old new w w' d f r kt kl m l i k a fin delta shift gain = record {
  found = f;
  same_id = i;
  same_key = k;
  same_amount = a;
  written = l.transactions_kept ∙ m.written ∙ ap (replace (λ t. t.id) id new) kt;
  moved = λ p j.
      regroup _ _ _ _ _
        (ap (λ ws. balance_in p (find_unique (λ v. v.id) j ws)) (l.wallets_kept ∙ m.wallets_kept)
          ∙ balance-Rewrites p j (d p) db mid w w' r (delta p))
        (shift no_log p j);
  log = l.log;
  of_transaction = l.of_transaction;
  first = no_log;
  logged = l.logged ∙ ap (λ ls. ls ++ l.log ∷ []) (m.logs_kept ∙ kl);
  is_final = fin;
  gains = λ h j. raised _ _ _ (old_or_more (w.id == j) h) (shift no_log available j);
}
  where
    no_log : find_log id db ≡ none
    no_log = ap (λ ls. find_unique (λ v. v.transaction_id) id ls) (sym (m.logs_kept ∙ kl)) ∙ l.first

    old_or_more : (b : Bool) → pos 0 ≤ℤ old.amount → pos 0 ≤ℤ (if b then d available else pos 0)
    old_or_more true h = gain h
    old_or_more false h = omega arith
