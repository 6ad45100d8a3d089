-- ===== src/Wallet.antt =====
-- src/modules/wallet/wallet.repository.ts: reads, the row lock, the guards and the balance updates.
pub mod Pages
pub mod Listing
use payment_wallet_system.Prelude.{◌≡◌, Option, Bool, true, false, not, arith}
use payment_wallet_system.Prelude.Int.{◌+ℤ◌, ◌-ℤ◌, ltb_ℤ}
use payment_wallet_system.Db.Schema.{
  Uuid, Decimal, Wallet, Db, AccountStatus, active, Currency, usd, eur, gbp,
}
use payment_wallet_system.Db.Table.{find_unique}
use payment_wallet_system.Db.Tx.{
  Tx, not_found, forbidden, unprocessable, wallet_not_found, wallet_not_active, currency_mismatch,
  insufficient_balance, gets, or_throw, pure, ensure, ◌>>=◌,
}
use payment_wallet_system.Db.Writes.{find_wallet, update_wallet}

abbrev pub find_by_user_id : Uuid → Db → Option Wallet
find_by_user_id user_id db = find_unique (λ w. w.user_id) user_id db.wallets

-- `SELECT … FOR UPDATE`
unfoldable pub lock_wallet : Uuid → Tx Wallet
lock_wallet id = do or_throw (← gets (find_wallet id)) (not_found wallet_not_found)

abbrev pub is_active : AccountStatus → Bool
is_active active = true
is_active _ = false

abbrev pub same_currency : Currency → Currency → Bool
same_currency usd usd = true
same_currency eur eur = true
same_currency gbp gbp = true
same_currency _ _ = false

abbrev pub assert_active : Wallet → Tx (Unit {0})
assert_active w = ensure (is_active w.status) (forbidden wallet_not_active)

abbrev pub assert_currency_match : Wallet → Currency → Tx (Unit {0})
assert_currency_match w c = ensure (same_currency w.currency c) (forbidden currency_mismatch)

unfoldable pub credit_available : Uuid → Decimal → Tx Decimal
unfolding update_wallet
credit_available id amount = do
  w ← update_wallet id (λ w. record w { available_balance = w.available_balance +ℤ amount })
  pure w.available_balance

-- Returns the new row, of which the callers read `lockedBalance`.
unfoldable pub debit_available_and_lock : Uuid → Decimal → Tx Wallet
unfolding update_wallet
debit_available_and_lock id amount = update_wallet id λ w. record w {
  available_balance = w.available_balance -ℤ amount;
  locked_balance = w.locked_balance +ℤ amount;
}

unfoldable pub credit_pending : Uuid → Decimal → Tx Decimal
unfolding update_wallet
credit_pending id amount = do
  w ← update_wallet id (λ w. record w { pending_balance = w.pending_balance +ℤ amount })
  pure w.pending_balance

unfoldable pub settle_pending : Uuid → Decimal → Tx Decimal
unfolding update_wallet
settle_pending id amount = do
  w ← update_wallet id λ w. record w {
    pending_balance = w.pending_balance -ℤ amount;
    available_balance = w.available_balance +ℤ amount;
  }
  pure w.available_balance

unfoldable pub settle_withdrawal : Uuid → Decimal → Tx Decimal
unfolding update_wallet
settle_withdrawal id amount = do
  w ← update_wallet id (λ w. record w { locked_balance = w.locked_balance -ℤ amount })
  pure w.locked_balance

unfoldable pub debit_available : Uuid → Decimal → Tx Decimal
unfolding update_wallet
debit_available id amount = do
  w ← update_wallet id (λ w. record w { available_balance = w.available_balance -ℤ amount })
  pure w.available_balance

-- `assertSufficientBalance` of transaction.service.ts, and the same test in payment.service.ts.
abbrev pub assert_sufficient_balance : Decimal → Decimal → Tx (Unit {0})
assert_sufficient_balance available required =
    ensure (not (ltb_ℤ available required)) (unprocessable insufficient_balance)
