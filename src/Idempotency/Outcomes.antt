-- ===== src/Idempotency/Outcomes.antt =====
-- The unique column `transactionId` of the payment logs, and a second outcome.
use payment_wallet_system.Prelude.{◌≡◌, refl, some, none, ◌⊎◌, inl, inr, List, arith, ==_refl}
use payment_wallet_system.Db.Schema.{Uuid, Transaction, PaymentLog, Db}
use payment_wallet_system.Db.Table.{find_unique-snoc}
use payment_wallet_system.Db.Tx.{Refuses, Tx, ok, with_transaction, Result-cases}
use payment_wallet_system.Db.Writes.{Stamp, find_transaction, find_log}
use payment_wallet_system.Payment.Providers.{ProviderResult}
use payment_wallet_system.Payment.Settlement.{TransactionContext, settle, fail, settle_tx, fail_tx}
use payment_wallet_system.Books.Resolving.{Describes, Resolves}
use payment_wallet_system.Books.Soundness.{IsSound}
use payment_wallet_system.System.Steps.{Reach, here, next, settles, fails}
use payment_wallet_system.System.Changes.{settle_tx-Resolves, fail_tx-Resolves, Reach-IsSound}
use payment_wallet_system.System.Requests.{Request, run, run-Reach}
use payment_wallet_system.Idempotency.Lasting.{Reach-find_log}

refuses :
    (m : Tx (Unit {0})) (db : Db)
    → ((db' : Db) → m db ≡ ok (tt, db') → ⊥)
    → Refuses db (with_transaction m db)
refuses m db h = elim (Result-cases (m db)) [
  | inl (db', done) ↦ absurd (h db' done)
  | inr (e, thrown) ↦ (e, rw (thrown, with_transaction) refl)
]

committed :
    (m : Tx (Unit {0})) (db mid : Db) → with_transaction m db ≡ (ok tt, mid) → m db ≡ ok (tt, mid)
committed m db mid e = elim (Result-cases (m db)) [
  | inl (db', done) ↦ ground arith
  | inr (x, thrown) ↦ ground arith
]

none-some :
    (id : Uuid) (db : Db) (l : PaymentLog) → find_log id db ≡ none → find_log id db ≡ some l → ⊥
none-some id db l n s = cc

Resolves-find_log :
    (id : Uuid) (db db' : Db) (old new : Transaction)
    → (r : Resolves id db old new db') → find_log id db' ≡ some r.log
Resolves-find_log id db db' old new r = rw r.logged (
    rw (find_unique-snoc (λ v. v.transaction_id) id db.payment_logs r.log r.first)
      (rw r.of_transaction (rw (==_refl id) refl)))

-- The transaction has its outcome: what is tried again, in the same or the other direction, is
-- refused.
has_outcome :
    (s : Stamp) (ctx : TransactionContext) (event_id : Uuid) (r : ProviderResult)
    (row : Transaction) (db : Db) (l : PaymentLog)
    → IsSound db
    → find_transaction ctx.id db ≡ some row
    → Describes ctx row
    → find_log ctx.id db ≡ some l
    → Refuses db (settle s ctx event_id r db) × Refuses db (fail s ctx event_id r db)
unfolding settle fail
has_outcome s ctx event_id r row db l sound f same logged = (
  refuses (settle_tx ctx.type s ctx event_id r) db λ db' e.
      let (new, status, done) =
        settle_tx-Resolves ctx.type s ctx event_id r row db db' refl f same e sound in
      none-some ctx.id db l done.first logged,
  refuses (fail_tx ctx.type s ctx event_id r) db λ db' e.
      let (new, status, done) =
        fail_tx-Resolves ctx.type s ctx event_id r row db db' refl f same e sound in
      none-some ctx.id db l done.first logged,
)

-- The call settles or fails the transaction.
abbrev pub Ends : Stamp → TransactionContext → Uuid → ProviderResult → Db → Db → Type 0
Ends s ctx event_id r db db' =
    (settle s ctx event_id r db ≡ (ok tt, db')) ⊎ (fail s ctx event_id r db ≡ (ok tt, db'))

ends :
    (s : Stamp) (ctx : TransactionContext) (event_id : Uuid) (r : ProviderResult)
    (old : Transaction) (db mid : Db)
    → IsSound db
    → find_transaction ctx.id db ≡ some old
    → Describes ctx old
    → Ends s ctx event_id r db mid
    → Reach db mid × (l : PaymentLog) × (find_log ctx.id mid ≡ some l)
unfolding settle fail
ends s ctx event_id r old db mid sound f same (inl e) =
    let done = committed (settle_tx ctx.type s ctx event_id r) db mid e in
    let (new, status, res) =
      settle_tx-Resolves ctx.type s ctx event_id r old db mid refl f same done sound in
    (
      next here (settles s ctx event_id r old f same done),
      res.log,
      Resolves-find_log ctx.id db mid old new res,
    )
ends s ctx event_id r old db mid sound f same (inr e) =
    let done = committed (fail_tx ctx.type s ctx event_id r) db mid e in
    let (new, status, res) =
      fail_tx-Resolves ctx.type s ctx event_id r old db mid refl f same done sound in
    (
      next here (fails s ctx event_id r old f same done),
      res.log,
      Resolves-find_log ctx.id db mid old new res,
    )

-- In sound books, a transaction that has been settled or failed stays so: whatever is requested and
-- polled after it, every later call that would settle it and every later call that would fail it
-- throws and writes nothing. Both contexts are those of a row of the transaction.
pub outcome_once :
    (s s' : Stamp) (ctx ctx' : TransactionContext) (event_id event_id' : Uuid)
    (r r' : ProviderResult) (old row : Transaction) (db mid : Db) (qs : List Request)
    → IsSound db
    → find_transaction ctx.id db ≡ some old
    → Describes ctx old
    → Ends s ctx event_id r db mid
    → ctx'.id ≡ ctx.id
    → find_transaction ctx'.id (run qs mid) ≡ some row
    → Describes ctx' row
    → Refuses (run qs mid) (settle s' ctx' event_id' r' (run qs mid))
      × Refuses (run qs mid) (fail s' ctx' event_id' r' (run qs mid))
outcome_once s s' ctx ctx' event_id event_id' r r' old row db mid qs sound f same e i f' same' =
    let (first, l, logged) = ends s ctx event_id r old db mid sound f same e in
    let sound_mid = Reach-IsSound first sound in
    has_outcome s' ctx' event_id' r' row (run qs mid) l (Reach-IsSound (run-Reach qs mid) sound_mid)
      f' same' (rw i (Reach-find_log ctx.id l (run-Reach qs mid) sound_mid logged))
