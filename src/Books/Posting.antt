-- ===== src/Books/Posting.antt =====
-- How one callback moves the balances: a wallet is rewritten, and a transaction is posted.
use payment_wallet_system.Prelude.{
  ◌≡◌, some, none, ◌++◌, [], ◌∷◌, Bool-cases, inl, inr, true, ap, sym, ◌∙◌, ==_iff, ◌==◌,
  if◌then◌else◌,
}
use payment_wallet_system.Prelude.Int.{pos, ◌+ℤ◌, ◌≤ℤ◌, int_laws}
use payment_wallet_system.Prelude.Lists.{sum_of-snoc}
use payment_wallet_system.Db.Schema.{Uuid, Decimal, Wallet, Transaction, Db}
use payment_wallet_system.Db.Table.{replace}
use payment_wallet_system.Db.Writes.{find_wallet, find_transaction, find_key}
use payment_wallet_system.Books.Effects.{
  Pot, in_pot, balance_in, balance, effect, balance-replace, log_fits, IsReconciled,
}

-- The wallet `old` has become `new`, and no other wallet has changed.
pub record Rewrites (db : Db) (old new : Wallet) (db' : Db) : Type 0 where
  pub found : find_wallet old.id db ≡ some old
  pub same_id : new.id ≡ old.id
  pub written : db'.wallets ≡ replace (λ w. w.id) old.id new db.wallets

-- A rewritten wallet that moves by `d` in a pot moves that balance of that wallet, and no other.
pub balance-Rewrites :
    (p : Pot) (j : Uuid) (d : Decimal) (db db' : Db) (old new : Wallet)
    → Rewrites db old new db'
    → in_pot p new ≡ in_pot p old +ℤ d
    → balance p j db' ≡ balance p j db +ℤ (if old.id == j then d else pos 0)
balance-Rewrites p j d db db' old new r m =
    rw (r.written, balance-replace p j old.id new old db.wallets r.same_id r.found)
      (elim (Bool-cases (old.id == j)) [
        | inl same ↦ rw same (m ∙ ap (λ o. balance_in p o +ℤ d) (sym (found_at same)))
        | inr differs ↦ rw differs (grind int_laws)
      ])
  where
    found_at : (old.id == j) ≡ true → find_wallet j db ≡ some old
    found_at same = rw (← (==_iff old.id j).0 same) r.found

-- If the new wallet is not overdrawn, no wallet becomes so.
pub Rewrites-nonneg :
    (p : Pot) (j : Uuid) (db db' : Db) (old new : Wallet)
    → Rewrites db old new db'
    → pos 0 ≤ℤ in_pot p new
    → pos 0 ≤ℤ balance p j db
    → pos 0 ≤ℤ balance p j db'
Rewrites-nonneg p j db db' old new r n h =
    rw (r.written, balance-replace p j old.id new old db.wallets r.same_id r.found)
      (elim (Bool-cases (old.id == j)) [ inl same ↦ rw same n | inr differs ↦ rw differs h ])

-- The callback has added the transaction, and moved every balance by what it contributes.
pub record Posts (db : Db) (t : Transaction) (db' : Db) : Type 0 where
  pub posted : db'.transactions ≡ db.transactions ++ t ∷ []
  pub moved : (p : Pot) (id : Uuid) → balance p id db' ≡ balance p id db +ℤ effect p id t
  pub fresh_id : find_transaction t.id db ≡ none
  pub fresh_key : find_key t.idempotency_key db ≡ none
  pub no_log_yet : log_fits t.type t.status true ≡ true
  pub logs_kept : db'.payment_logs ≡ db.payment_logs

pub Posts-IsReconciled :
    (db db' : Db) (t : Transaction) → Posts db t db' → IsReconciled db → IsReconciled db'
Posts-IsReconciled db db' t h books p id =
    rw (h.posted, sum_of-snoc (effect p id) db.transactions t, ← books p id) (h.moved p id)
