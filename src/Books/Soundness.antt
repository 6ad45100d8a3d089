-- ===== src/Books/Soundness.antt =====
-- The invariant of the books.
use payment_wallet_system.Prelude.{
  ◌≡◌, Option, some, none, true, false, Bool, ◌++◌, List, [], ◌∷◌, arith, ◌∙◌, if◌then◌else◌, ◌==◌,
  is_none, inl, inr, Option-cases,
}
use payment_wallet_system.Prelude.Int.{pos, ◌+ℤ◌, ◌≤ℤ◌, int_laws}
use payment_wallet_system.Prelude.Lists.{sum_of}
use payment_wallet_system.Db.Schema.{Uuid, Decimal, Transaction, PaymentLog, Db}
use payment_wallet_system.Db.Query.{Every}
use payment_wallet_system.Db.Table.{
  find_unique, find_unique-column, find_unique-replace, find_unique-snoc, find_unique-snoc_old,
  sum_of-replace, Every-replace, Every-snoc, Every-find_unique,
}
use payment_wallet_system.Db.Writes.{find_transaction}
use payment_wallet_system.Books.Effects.{
  Pot, available, locked, pending, balance, effect, log_fits, log_fits_row, LogsMatch, IsReconciled,
}
use payment_wallet_system.Books.Posting.{Posts, Posts-IsReconciled}
use payment_wallet_system.Books.Resolving.{Resolves}

abbrev pub IsPaid : Transaction → Type 0
IsPaid t = pos 0 ≤ℤ t.amount

-- Balances agree with the transactions, payment logs with their outcomes, no amount is negative
-- and no wallet is overdrawn.
pub record IsSound (db : Db) : Type 0 where
  pub reconciled : IsReconciled db
  pub logs_match : LogsMatch db
  pub paid : Every IsPaid db.transactions
  pub covered : (j : Uuid) → pos 0 ≤ℤ balance available j db

cancel : (x s e y n : Decimal) → x +ℤ e ≡ y +ℤ n → s +ℤ e ≡ y +ℤ n → x ≡ s
cancel x s e y n p q = grind (int_laws)

Resolves-IsReconciled :
    (id : Uuid) (db db' : Db) (old new : Transaction)
    → Resolves id db old new db'
    → IsReconciled db
    → IsReconciled db'
Resolves-IsReconciled id db db' old new r h p j =
    cancel _ _ (effect p j old) (balance p j db) (effect p j new) (r.moved p j) (
      rw (r.written, h p j)
        (sum_of-replace (λ t. t.id) (effect p j) id new old db.transactions r.found))

row_fits :
    (o : Option Transaction) (n : Bool) {x : Option Transaction}
    → o ≡ x
    → log_fits_row o n ≡ true
    → log_fits_row x n ≡ true
row_fits o n e h = rw e at h

new_row_fits :
    (b n : Bool) (t : Transaction)
    → n ≡ true
    → log_fits t.type t.status true ≡ true
    → log_fits_row (if b then some t else none) n ≡ true
new_row_fits true n t e h = rw e h
new_row_fits false n t e h = e

Posts-LogsMatch : (db db' : Db) (t : Transaction) → Posts db t db' → LogsMatch db → LogsMatch db'
Posts-LogsMatch db db' t h m j =
    rw (h.posted, h.logs_kept)
      (elim (Option-cases (find_transaction j db)) [
        | inr (u, found) ↦
            rw (find_unique-snoc_old (λ v. v.id) j db.transactions t u found)
              (row_fits _ _ found (m j))
        | inl missing ↦
            rw (find_unique-snoc (λ v. v.id) j db.transactions t missing)
              (new_row_fits (t.id == j) _ t (row_fits _ _ missing (m j)) h.no_log_yet)
      ])

pub Posts-IsSound :
    (db db' : Db) (t : Transaction)
    → Posts db t db'
    → IsPaid t
    → ((j : Uuid) → pos 0 ≤ℤ balance available j db')
    → IsSound db
    → IsSound db'
Posts-IsSound db db' t h paid c sound = record {
  reconciled = Posts-IsReconciled db db' t h sound.reconciled;
  logs_match = Posts-LogsMatch db db' t h sound.logs_match;
  paid = rw h.posted (Every-snoc (λ v. v.id) IsPaid db.transactions t sound.paid paid);
  covered = c;
}

-- The log is found under its own transaction, and elsewhere nothing has changed.
resolved_fits :
    (b : Bool) (new : Transaction) (x : Option Transaction) (n : Bool)
    → log_fits new.type new.status false ≡ true
    → log_fits_row x n ≡ true
    → log_fits_row (if b then some new else x) (if b then false else n) ≡ true
resolved_fits true new x n h k = h
resolved_fits false new x n h k = k

is_none-snoc :
    (id j : Uuid) (ls : List PaymentLog) (l : PaymentLog)
    → l.transaction_id ≡ id
    → find_unique (λ v. v.transaction_id) id ls ≡ none
    → is_none (find_unique (λ v. v.transaction_id) j (ls ++ l ∷ []))
      ≡ (if id == j then false else is_none (find_unique (λ v. v.transaction_id) j ls))
is_none-snoc id j ls l e first = elim (Option-cases (find_unique (λ v. v.transaction_id) j ls)) [
  | inl missing ↦
      ground (arith, find_unique-snoc (λ (v : PaymentLog). v.transaction_id) j ls l missing)
  | inr (m, found) ↦
      ground (arith, find_unique-snoc_old (λ (v : PaymentLog). v.transaction_id) j ls l m found)
]

Resolves-LogsMatch :
    (id : Uuid) (db db' : Db) (old new : Transaction)
    → Resolves id db old new db'
    → LogsMatch db
    → LogsMatch db'
Resolves-LogsMatch id db db' old new r m j =
    rw
      (
        r.written,
        r.logged,
        find_unique-replace (λ v. v.id) j id new old db.transactions
            (r.same_id ∙ find_unique-column (λ v. v.id) id db.transactions old r.found) r.found,
        is_none-snoc id j db.payment_logs r.log r.of_transaction r.first,
      )
      (resolved_fits (id == j) new _ _ r.is_final (m j))

pub Resolves-IsSound :
    (id : Uuid) (db db' : Db) (old new : Transaction)
    → Resolves id db old new db'
    → IsSound db
    → IsSound db'
Resolves-IsSound id db db' old new r sound = record {
  reconciled = Resolves-IsReconciled id db db' old new r sound.reconciled;
  logs_match = Resolves-LogsMatch id db db' old new r sound.logs_match;
  paid = rw r.written (
      Every-replace (λ v. v.id) IsPaid id new db.transactions sound.paid
        (rw r.same_amount was_paid));
  covered = λ j. not_less _ _ _ _ (r.moved available j) (r.gains was_paid j) (sound.covered j);
}
  where
    was_paid : IsPaid old
    was_paid = Every-find_unique (λ v. v.id) IsPaid id db.transactions old r.found sound.paid

    not_less : (c b x y : Decimal) → c +ℤ x ≡ b +ℤ y → x ≤ℤ y → pos 0 ≤ℤ b → pos 0 ≤ℤ c
    not_less c b x y e h k = grind int_laws

-- Nothing that the books read has changed.
pub Same-IsSound :
    (db db' : Db)
    → db'.wallets ≡ db.wallets
    → db'.transactions ≡ db.transactions
    → db'.payment_logs ≡ db.payment_logs
    → IsSound db
    → IsSound db'
Same-IsSound db db' w t l sound = record {
  reconciled = λ p j. rw (w, t) (sound.reconciled p j);
  logs_match = λ j. rw (t, l) (sound.logs_match j);
  paid = rw t sound.paid;
  covered = λ j. rw w (sound.covered j);
}

sum_of-nonneg :
    (f : Transaction → Decimal) (ts : List Transaction)
    → ((t : Transaction) → IsPaid t → pos 0 ≤ℤ f t)
    → Every IsPaid ts
    → pos 0 ≤ℤ sum_of f ts
unfolding sum_of
sum_of-nonneg f [] h paid = omega arith
sum_of-nonneg f (t ∷ ts) h paid =
    sum_nonneg (f t) (sum_of f ts) (h t paid.0) (sum_of-nonneg f ts h paid.1)
  where
    sum_nonneg : (a b : Decimal) → pos 0 ≤ℤ a → pos 0 ≤ℤ b → pos 0 ≤ℤ a +ℤ b
    sum_nonneg a b h k = grind int_laws

locked_nonneg : (j : Uuid) (t : Transaction) → IsPaid t → pos 0 ≤ℤ effect locked j t
unfolding effect
locked_nonneg j t h = ground arith

pending_nonneg : (j : Uuid) (t : Transaction) → IsPaid t → pos 0 ≤ℤ effect pending j t
unfolding effect
pending_nonneg j t h = ground arith

-- In sound books no balance is negative: neither what is available, nor what is locked, nor what is
-- pending, of any wallet.
pub IsSound-nonneg : (db : Db) → IsSound db → (p : Pot) (j : Uuid) → pos 0 ≤ℤ balance p j db
IsSound-nonneg db sound available j = sound.covered j
IsSound-nonneg db sound locked j =
    rw (sound.reconciled locked j) (sum_of-nonneg _ db.transactions (locked_nonneg j) sound.paid)
IsSound-nonneg db sound pending j =
    rw (sound.reconciled pending j) (sum_of-nonneg _ db.transactions (pending_nonneg j) sound.paid)
