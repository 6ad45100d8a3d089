-- ===== src/Idempotency/Keys.antt =====
-- The unique column `idempotencyKey`, for two requests that have both passed the check.
use payment_wallet_system.Prelude.{◌≡◌, refl, some, none, ◌∙◌}
use payment_wallet_system.Db.Schema.{Uuid, Transaction, Db}
use payment_wallet_system.Db.Tx.{Tx, Result, Exception, ok, err}
use payment_wallet_system.Db.Writes.{Stamp, find_key}
use payment_wallet_system.Transaction.Service.{
  MoneyDto, TransferDto, deposit_tx, withdraw_tx, transfer_tx,
}
use payment_wallet_system.Payment.Service.{
  ConfirmDepositDto, CreatePayoutDto, confirm_deposit_tx, create_payout_tx,
}
use payment_wallet_system.Books.Deposits.{deposit_tx-Posts, key_of_deposit}
use payment_wallet_system.Books.Withdrawals.{withdraw_tx-Posts, key_of_withdrawal}
use payment_wallet_system.Books.Transfers.Moves.{transfer_tx-Posts, key_of_transfer}
use payment_wallet_system.Books.Confirmations.{confirm_deposit_tx-Posts, key_of_confirmation}
use payment_wallet_system.Books.Payouts.{create_payout_tx-Posts, key_of_payout}

-- The callback throws, so that nothing of it is kept.
abbrev pub Throws : {A : Type 0} → Result (A × Db) → Type 0
Throws r = (e : Exception) × (r ≡ err e)

-- A callback that only posts under a fresh key throws under a key that is taken.
taken-Throws :
    (key : Uuid) (m : Tx Transaction) (db : Db) (seen : Transaction) (r : Result (Transaction × Db))
    → find_key key db ≡ some seen
    → m db ≡ r
    → ((t : Transaction) (db' : Db)
        → m db ≡ ok (t, db')
        → (find_key t.idempotency_key db ≡ none) × (t.idempotency_key ≡ key))
    → Throws (m db)
taken-Throws key m db seen (err e) s q h = (e, q)
taken-Throws key m db seen (ok (t, db')) s q h =
    let (fresh_key, same) = h t db' q in absurd (none_some (rw same at fresh_key) s)
  where
    none_some : find_key key db ≡ none → find_key key db ≡ some seen → ⊥
    none_some n s = cc

-- Once a transaction has an idempotency key, the callbacks of all five operations, which run after
-- the check of the key, throw under that key, whoever calls them and whatever else the request says.
pub key_taken-Throws :
    (key : Uuid) (db : Db) (seen : Transaction) (s : Stamp) (u from to : Uuid) (dto : MoneyDto)
    (transfer_dto : TransferDto) (confirm_dto : ConfirmDepositDto) (payout_dto : CreatePayoutDto)
    → find_key key db ≡ some seen
    → dto.idempotency_key ≡ key
    → transfer_dto.idempotency_key ≡ key
    → confirm_dto.idempotency_key ≡ key
    → payout_dto.idempotency_key ≡ key
    → Throws (deposit_tx s u dto db)
      × Throws (withdraw_tx s u dto db)
      × Throws (transfer_tx s u from to transfer_dto db)
      × Throws (confirm_deposit_tx s u confirm_dto db)
      × Throws (create_payout_tx s u payout_dto db)
key_taken-Throws key db seen s u from to d t c p found kd kt kc kp = (
  taken-Throws key (deposit_tx s u d) db seen _ found refl λ row db' e.
      ((deposit_tx-Posts s u d db db' row e).fresh_key, key_of_deposit s u d db db' row e ∙ kd),
  taken-Throws key (withdraw_tx s u d) db seen _ found refl λ row db' e.
      ((withdraw_tx-Posts s u d db db' row e).fresh_key, key_of_withdrawal s u d db db' row e ∙ kd),
  taken-Throws key (transfer_tx s u from to t) db seen _ found refl λ row db' e. (
    (transfer_tx-Posts s u from to t db db' row e).fresh_key,
    key_of_transfer s u from to t db db' row e ∙ kt,
  ),
  taken-Throws key (confirm_deposit_tx s u c) db seen _ found refl λ row db' e. (
    (confirm_deposit_tx-Posts s u c db db' row e).fresh_key,
    key_of_confirmation s u c db db' row e ∙ kc,
  ),
  taken-Throws key (create_payout_tx s u p) db seen _ found refl λ row db' e. (
    (create_payout_tx-Posts s u p db db' row e).fresh_key,
    key_of_payout s u p db db' row e ∙ kp,
  ),
)
