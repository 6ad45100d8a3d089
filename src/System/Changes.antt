-- ===== src/System/Changes.antt =====
-- What a committed transaction comes to in the books.
use payment_wallet_system.Prelude.{◌≡◌, refl, sym, subst, ◌∙◌, some, arith}
use payment_wallet_system.Prelude.Int.{pos, ◌≤ℤ◌}
use payment_wallet_system.Db.Schema.{
  Uuid, Decimal, Transaction, TransactionType, deposit_type, withdrawal_type, transfer_type,
  settled, failed, Db,
}
use payment_wallet_system.Db.Tx.{ok}
use payment_wallet_system.Db.Writes.{Stamp, find_transaction}
use payment_wallet_system.Payment.Providers.{ProviderResult}
use payment_wallet_system.Payment.Settlement.{TransactionContext, settle_tx, fail_tx}
use payment_wallet_system.Payment.Repository.{mark_delivered, increment_retry}
use payment_wallet_system.Books.Effects.{available, balance}
use payment_wallet_system.Books.Posting.{Posts}
use payment_wallet_system.Books.Resolving.{Describes, Resolves}
use payment_wallet_system.Books.Deposits.{deposit_tx-Posts, deposit_tx-covered, amount_of_deposit}
use payment_wallet_system.Books.Withdrawals.{
  withdraw_tx-Posts, withdraw_tx-covered, amount_of_withdrawal,
}
use payment_wallet_system.Books.Transfers.Moves.{
  transfer_tx-Posts, transfer_tx-covered, amount_of_transfer,
}
use payment_wallet_system.Books.Confirmations.{
  confirm_deposit_tx-Posts, confirm_deposit_tx-covered, amount_of_confirmation,
}
use payment_wallet_system.Books.Payouts.{
  create_payout_tx-Posts, create_payout_tx-covered, amount_of_payout,
}
use payment_wallet_system.Books.Settling.{settle_deposit-Resolves}
use payment_wallet_system.Books.SettlingLocked.{settle_locked-Resolves}
use payment_wallet_system.Books.Failing.{fail_deposit-Resolves}
use payment_wallet_system.Books.FailingLocked.{fail_locked-Resolves}
use payment_wallet_system.Books.Soundness.{
  IsPaid, IsSound, Posts-IsSound, Resolves-IsSound, Same-IsSound,
}
use payment_wallet_system.System.Steps.{
  Commit, Reach, here, next, deposits, withdraws, transfers, confirms, pays_out, settles, fails,
  delivers, retries,
}

-- A transaction is posted or resolved, or the books stay as they are.
pub data Change (db db' : Db) : Type 0 where
  posts :
      (t : Transaction)
      → Posts db t db'
      → IsPaid t
      → ((j : Uuid) → pos 0 ≤ℤ balance available j db')
      → Change db db'
  resolves : (id : Uuid) (old new : Transaction) → Resolves id db old new db' → Change db db'
  keeps :
      db'.wallets ≡ db.wallets
      → db'.transactions ≡ db.transactions
      → db'.payment_logs ≡ db.payment_logs
      → Change db db'

-- A settlement that goes through leaves the transaction settled under its id, key and amount: every
-- balance has moved by the difference of what the transaction contributed before and contributes
-- now, and the payment log that is added is its first. The books are sound, the row is there, and
-- the context has its type, amount and wallets.
pub settle_tx-Resolves :
    (k : TransactionType) (s : Stamp) (ctx : TransactionContext) (event_id : Uuid)
    (r : ProviderResult) (old : Transaction) (db db' : Db)
    → ctx.type ≡ k
    → find_transaction ctx.id db ≡ some old
    → Describes ctx old
    → settle_tx k s ctx event_id r db ≡ ok (tt, db')
    → IsSound db
    → (new : Transaction) × (new.status ≡ settled) × Resolves ctx.id db old new db'
unfolding settle_tx
settle_tx-Resolves deposit_type s ctx event_id r old db db' k f same e sound = (
  _,
  refl,
  settle_deposit-Resolves s ctx event_id r db db' old sound.logs_match f same
      (sym same.same_type ∙ k) e,
)
settle_tx-Resolves withdrawal_type s ctx event_id r old db db' k f same e sound = (
  _,
  refl,
  settle_locked-Resolves s ctx event_id r db db' old sound.logs_match f same
      (sym same.same_type ∙ k) e,
)
settle_tx-Resolves transfer_type s ctx event_id r old db db' k f same e sound = cc

-- A failure that goes through leaves the transaction failed under its id, key and amount: every
-- balance has moved by the difference of what the transaction contributed before and contributes
-- now, and the payment log that is added is its first. The books are sound, the row is there, and
-- the context has its type, amount and wallets.
pub fail_tx-Resolves :
    (k : TransactionType) (s : Stamp) (ctx : TransactionContext) (event_id : Uuid)
    (r : ProviderResult) (old : Transaction) (db db' : Db)
    → ctx.type ≡ k
    → find_transaction ctx.id db ≡ some old
    → Describes ctx old
    → fail_tx k s ctx event_id r db ≡ ok (tt, db')
    → IsSound db
    → (new : Transaction) × (new.status ≡ failed) × Resolves ctx.id db old new db'
unfolding fail_tx
fail_tx-Resolves deposit_type s ctx event_id r old db db' k f same e sound = (
  _,
  refl,
  fail_deposit-Resolves s ctx event_id r db db' old sound.logs_match f same (sym same.same_type ∙ k)
      e,
)
fail_tx-Resolves withdrawal_type s ctx event_id r old db db' k f same e sound = (
  _,
  refl,
  fail_locked-Resolves s ctx event_id r db db' old sound.logs_match f same (sym same.same_type ∙ k)
      e,
)
fail_tx-Resolves transfer_type s ctx event_id r old db db' k f same e sound = cc

paid_as : (t : Transaction) (a : Decimal) → t.amount ≡ a → pos 0 ≤ℤ a → IsPaid t
paid_as t a e h = subst (λ x. pos 0 ≤ℤ x) (sym e) h

pub Commit-Change : {db db' : Db} → Commit db db' → IsSound db → Change db db'
unfolding mark_delivered increment_retry
Commit-Change {db} {db'} (deposits s u dto t h e) sound =
    posts t (deposit_tx-Posts s u dto db db' t e)
      (paid_as t dto.amount (amount_of_deposit s u dto db db' t e) h)
      (λ j. deposit_tx-covered s u dto db db' t j e (sound.covered j))
Commit-Change {db} {db'} (withdraws s u dto t h e) sound =
    posts t (withdraw_tx-Posts s u dto db db' t e)
      (paid_as t dto.amount (amount_of_withdrawal s u dto db db' t e) h)
      (λ j. withdraw_tx-covered s u dto db db' t j e (sound.covered j))
Commit-Change {db} {db'} (transfers s u from to dto t h e) sound =
    posts t (transfer_tx-Posts s u from to dto db db' t e)
      (paid_as t dto.amount (amount_of_transfer s u from to dto db db' t e) h)
      (transfer_tx-covered s u from to dto db db' t e h sound.covered)
Commit-Change {db} {db'} (confirms s u dto t h e) sound =
    posts t (confirm_deposit_tx-Posts s u dto db db' t e)
      (paid_as t dto.amount (amount_of_confirmation s u dto db db' t e) h)
      (λ j. confirm_deposit_tx-covered s u dto db db' t j e (sound.covered j))
Commit-Change {db} {db'} (pays_out s u dto t h e) sound =
    posts t (create_payout_tx-Posts s u dto db db' t e)
      (paid_as t dto.amount (amount_of_payout s u dto db db' t e) h)
      (λ j. create_payout_tx-covered s u dto db db' t j e (sound.covered j))
Commit-Change {db} {db'} (settles s ctx event_id r old f same e) sound =
    let (new, status, done) =
      settle_tx-Resolves ctx.type s ctx event_id r old db db' refl f same e sound in
    resolves ctx.id old new done
Commit-Change {db} {db'} (fails s ctx event_id r old f same e) sound =
    let (new, status, done) =
      fail_tx-Resolves ctx.type s ctx event_id r old db db' refl f same e sound in
    resolves ctx.id old new done
Commit-Change {db} {db'} (delivers now event_id e) sound =
    keeps (ground arith) (ground arith) (ground arith)
Commit-Change {db} {db'} (retries event_id e) sound =
    keeps (ground arith) (ground arith) (ground arith)

pub Change-IsSound : {db db' : Db} → Change db db' → IsSound db → IsSound db'
Change-IsSound {db} {db'} (posts t h paid covered) sound =
    Posts-IsSound db db' t h paid covered sound
Change-IsSound {db} {db'} (resolves id old new h) sound = Resolves-IsSound id db db' old new h sound
Change-IsSound {db} {db'} (keeps w t l) sound = Same-IsSound db db' w t l sound

-- Any interleaving of the services' committed database transactions keeps sound books sound: from
-- a database in which every balance of every wallet is the sum of what the transactions contribute
-- to it, a payment log stands for exactly the settled and failed deposits and withdrawals, and no
-- amount and no available balance is negative, they lead to one of which all this holds too. The
-- amounts that requests bring are not negative, and a settlement or failure is of a row that is
-- there and whose type, amount and wallets its context has.
pub Reach-IsSound : {db db' : Db} → Reach db db' → IsSound db → IsSound db'
Reach-IsSound here sound = sound
Reach-IsSound (next r c) sound =
    let mid = Reach-IsSound r sound in Change-IsSound (Commit-Change c mid) mid
