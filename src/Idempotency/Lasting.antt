-- ===== src/Idempotency/Lasting.antt =====
-- A transaction under its idempotency key, and a payment log, along a history.
use payment_wallet_system.Prelude.{◌≡◌, sym, ◌∙◌, ap, some, inl, inr}
use payment_wallet_system.Db.Schema.{Uuid, Transaction, PaymentLog, Db}
use payment_wallet_system.Db.Table.{find_unique-snoc_old, find_unique-replace_same}
use payment_wallet_system.Db.Writes.{find_key, find_log}
use payment_wallet_system.Books.Soundness.{IsSound}
use payment_wallet_system.System.Steps.{Reach, here, next}
use payment_wallet_system.System.Changes.{
  Change, posts, resolves, keeps, Commit-Change, Reach-IsSound,
}

-- The key leads to the same transaction, whose status may have changed.
pub record Known (key : Uuid) (t : Transaction) (db : Db) : Type 0 where
  pub row : Transaction
  pub found : find_key key db ≡ some row
  pub same_id : row.id ≡ t.id
  pub same_amount : row.amount ≡ t.amount

Change-Known :
    {key : Uuid} {t : Transaction} {db db' : Db} → Change db db' → Known key t db → Known key t db'
Change-Known {key} {t} {db} {db'} (posts u h paid covered) k = record {
  row = k.row;
  found =
      rw h.posted
        (find_unique-snoc_old (λ v. v.idempotency_key) key db.transactions u k.row k.found);
  same_id = k.same_id;
  same_amount = k.same_amount;
}
Change-Known {key} {t} {db} {db'} (resolves id old new h) k =
    elim (find_unique-replace_same (λ v. v.id) (λ v. v.idempotency_key) key id new old k.row
      db.transactions h.found h.same_key k.found) [
        | inl same ↦ record {
          row = k.row;
          found = rw h.written same;
          same_id = k.same_id;
          same_amount = k.same_amount;
        }
        | inr (changed, is_old) ↦ record {
          row = new;
          found = rw h.written changed;
          same_id = h.same_id ∙ ap (λ v. v.id) (sym is_old) ∙ k.same_id;
          same_amount = h.same_amount ∙ ap (λ v. v.amount) (sym is_old) ∙ k.same_amount;
        }
      ]
Change-Known {key} {t} {db} {db'} (keeps w h l) k = record {
  row = k.row;
  found = rw h k.found;
  same_id = k.same_id;
  same_amount = k.same_amount;
}

pub Reach-Known :
    {key : Uuid} {t : Transaction} {db db' : Db}
    → Reach db db'
    → IsSound db
    → Known key t db
    → Known key t db'
Reach-Known here sound k = k
Reach-Known (next r c) sound k =
    Change-Known (Commit-Change c (Reach-IsSound r sound)) (Reach-Known r sound k)

Change-find_log :
    (id : Uuid) (l : PaymentLog) {db db' : Db}
    → Change db db'
    → find_log id db ≡ some l
    → find_log id db' ≡ some l
Change-find_log id l (posts t h paid covered) f = rw h.logs_kept f
Change-find_log id l {db} (resolves i old new h) f =
    rw h.logged (find_unique-snoc_old (λ v. v.transaction_id) id db.payment_logs h.log l f)
Change-find_log id l (keeps w t h) f = rw h f

pub Reach-find_log :
    (id : Uuid) (l : PaymentLog) {db db' : Db}
    → Reach db db'
    → IsSound db
    → find_log id db ≡ some l
    → find_log id db' ≡ some l
Reach-find_log id l here sound f = f
Reach-find_log id l (next r c) sound f =
    Change-find_log id l (Commit-Change c (Reach-IsSound r sound)) (Reach-find_log id l r sound f)
