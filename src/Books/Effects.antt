-- ===== src/Books/Effects.antt =====
-- What the transactions say that each wallet must hold.
use payment_wallet_system.Prelude.{
  ◌≡◌, Option, none, some, Bool, true, false, not, List, arith, is_none, ◌==◌, if◌then◌else◌,
}
use payment_wallet_system.Prelude.Int.{pos, ◌-ℤ◌}
use payment_wallet_system.Prelude.Lists.{sum_of}
use payment_wallet_system.Db.Schema.{
  Uuid, Decimal, Wallet, Transaction, TransactionType, deposit_type, withdrawal_type, transfer_type,
  TransactionStatus, initiated, authorized, processing, settled, failed, reversed, Db,
}
use payment_wallet_system.Db.Writes.{find_transaction, find_log}
use payment_wallet_system.Db.Table.{find_unique, replace, find_unique-replace}

-- The three balances of a wallet.
pub data Pot : Type 0 where
  available locked pending : Pot

abbrev pub in_pot : Pot → Wallet → Decimal
in_pot available w = w.available_balance
in_pot locked w = w.locked_balance
in_pot pending w = w.pending_balance

abbrev pub balance_in : Pot → Option Wallet → Decimal
balance_in p none = pos 0
balance_in p (some w) = in_pot p w

-- A balance of a wallet; a wallet that does not exist holds nothing.
abbrev pub balance : Pot → Uuid → Db → Decimal
balance p id db = balance_in p (find_unique (λ w. w.id) id db.wallets)

abbrev pub share : Uuid → Option Uuid → Decimal → Decimal
share id none amount = pos 0
share id (some w) amount = if w == id then amount else pos 0

-- What a deposit of each status means for the wallet that receives it.
abbrev pub deposit_effect : Pot → TransactionStatus → Decimal → Decimal
deposit_effect available settled a = a
deposit_effect pending initiated a = a
deposit_effect pending authorized a = a
deposit_effect pending processing a = a
deposit_effect _ _ a = pos 0

-- What a withdrawal of each status means for the wallet that sends it.
abbrev pub withdrawal_effect : Pot → TransactionStatus → Decimal → Decimal
withdrawal_effect available failed a = pos 0
withdrawal_effect available reversed a = pos 0
withdrawal_effect available _ a = pos 0 -ℤ a
withdrawal_effect locked initiated a = a
withdrawal_effect locked authorized a = a
withdrawal_effect locked processing a = a
withdrawal_effect _ _ a = pos 0

-- A transfer takes from one wallet and gives to the other.
abbrev pub transfer_effect : Pot → Decimal → Decimal → Decimal
transfer_effect available sent received = received -ℤ sent
transfer_effect _ sent received = pos 0

abbrev pub effect_of :
    Pot → Uuid → TransactionType → TransactionStatus → Option Uuid → Option Uuid → Decimal → Decimal
effect_of p id deposit_type s from to a = deposit_effect p s (share id to a)
effect_of p id withdrawal_type s from to a = withdrawal_effect p s (share id from a)
effect_of p id transfer_type s from to a = transfer_effect p (share id from a) (share id to a)

-- What one transaction contributes to a balance of a wallet.
unfoldable pub effect : Pot → Uuid → Transaction → Decimal
effect p id t = effect_of p id t.type t.status t.sender_wallet_id t.receiver_wallet_id t.amount

-- Every balance of every wallet is the sum of what the transactions contribute to it.
abbrev pub IsReconciled : Db → Type 0
IsReconciled db = (p : Pot) (id : Uuid) → balance p id db ≡ sum_of (effect p id) db.transactions

-- How the status of a transaction goes with whether it has no payment log: a transfer never has
-- one, a deposit or withdrawal has one exactly once it is settled or failed.
abbrev pub log_fits : TransactionType → TransactionStatus → Bool → Bool
log_fits transfer_type s no_log = no_log
log_fits _ initiated no_log = no_log
log_fits _ authorized no_log = no_log
log_fits _ processing no_log = no_log
log_fits _ settled no_log = not no_log
log_fits _ failed no_log = not no_log
log_fits _ reversed no_log = false

abbrev pub log_fits_row : Option Transaction → Bool → Bool
log_fits_row none no_log = no_log
log_fits_row (some t) no_log = log_fits t.type t.status no_log

abbrev pub LogsMatch : Db → Type 0
LogsMatch db = (id : Uuid) → log_fits_row (find_transaction id db) (is_none (find_log id db)) ≡ true

pub balance-replace :
    (p : Pot) (j k : Uuid) (new old : Wallet) (ws : List Wallet)
    → new.id ≡ k
    → find_unique (λ w. w.id) k ws ≡ some old
    → balance_in p (find_unique (λ w. w.id) j (replace (λ w. w.id) k new ws))
      ≡ (if k == j then in_pot p new else balance_in p (find_unique (λ w. w.id) j ws))
balance-replace p j k new old ws c e =
    rw (find_unique-replace (λ w. w.id) j k new old ws c e) (ground arith)
