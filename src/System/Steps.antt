-- ===== src/System/Steps.antt =====
-- The database transactions that the services commit, one after another.
use payment_wallet_system.Prelude.{◌≡◌, some}
use payment_wallet_system.Prelude.Int.{pos, ◌≤ℤ◌}
use payment_wallet_system.Db.Schema.{Uuid, Time, Transaction, Db}
use payment_wallet_system.Db.Tx.{ok}
use payment_wallet_system.Db.Writes.{Stamp, find_transaction}
use payment_wallet_system.Transaction.Service.{
  MoneyDto, TransferDto, deposit_tx, withdraw_tx, transfer_tx,
}
use payment_wallet_system.Payment.Service.{
  ConfirmDepositDto, CreatePayoutDto, confirm_deposit_tx, create_payout_tx,
}
use payment_wallet_system.Payment.Providers.{ProviderResult}
use payment_wallet_system.Payment.Settlement.{TransactionContext, settle_tx, fail_tx}
use payment_wallet_system.Payment.Repository.{mark_delivered, increment_retry}
use payment_wallet_system.Books.Resolving.{Describes}

-- One committed transaction. `old` is the row that the context was read from, whenever that was.
pub data Commit (db db' : Db) : Type 0 where
  deposits :
      (s : Stamp) (u : Uuid) (dto : MoneyDto) (t : Transaction)
      → pos 0 ≤ℤ dto.amount
      → deposit_tx s u dto db ≡ ok (t, db')
      → Commit db db'
  withdraws :
      (s : Stamp) (u : Uuid) (dto : MoneyDto) (t : Transaction)
      → pos 0 ≤ℤ dto.amount
      → withdraw_tx s u dto db ≡ ok (t, db')
      → Commit db db'
  transfers :
      (s : Stamp) (u from to : Uuid) (dto : TransferDto) (t : Transaction)
      → pos 0 ≤ℤ dto.amount
      → transfer_tx s u from to dto db ≡ ok (t, db')
      → Commit db db'
  confirms :
      (s : Stamp) (u : Uuid) (dto : ConfirmDepositDto) (t : Transaction)
      → pos 0 ≤ℤ dto.amount
      → confirm_deposit_tx s u dto db ≡ ok (t, db')
      → Commit db db'
  pays_out :
      (s : Stamp) (u : Uuid) (dto : CreatePayoutDto) (t : Transaction)
      → pos 0 ≤ℤ dto.amount
      → create_payout_tx s u dto db ≡ ok (t, db')
      → Commit db db'
  settles :
      (s : Stamp) (ctx : TransactionContext) (event_id : Uuid) (r : ProviderResult)
      (old : Transaction)
      → find_transaction ctx.id db ≡ some old
      → Describes ctx old
      → settle_tx ctx.type s ctx event_id r db ≡ ok (tt, db')
      → Commit db db'
  fails :
      (s : Stamp) (ctx : TransactionContext) (event_id : Uuid) (r : ProviderResult)
      (old : Transaction)
      → find_transaction ctx.id db ≡ some old
      → Describes ctx old
      → fail_tx ctx.type s ctx event_id r db ≡ ok (tt, db')
      → Commit db db'
  delivers :
      (now : Time) (event_id : Uuid) → mark_delivered now event_id db ≡ ok (tt, db') → Commit db db'
  retries : (event_id : Uuid) → increment_retry event_id db ≡ ok (tt, db') → Commit db db'

pub data Reach (db : Db) : Db → Type 0 where
  here : Reach db db
  next : {mid db' : Db} → Reach db mid → Commit mid db' → Reach db db'

pub Reach-trans : {a b c : Db} → Reach a b → Reach b c → Reach a c
Reach-trans r here = r
Reach-trans r (next q c) = next (Reach-trans r q) c
