-- ===== src/Delivery/Completion.antt =====
-- src/modules/payment/payment-settlement.service.ts: the conditions of settlement and failure.
use payment_wallet_system.Prelude.{◌≡◌, some, none, true, arith, ◌∙◌, ap, sym, subst, Option}
use payment_wallet_system.Prelude.Int.{◌+ℤ◌, ◌-ℤ◌}
use payment_wallet_system.Db.Schema.{
  Uuid, credit, debit, TransactionType, deposit_type, withdrawal_type, transfer_type, settled,
  Wallet, Db,
}
use payment_wallet_system.Db.Table.{replace, find_unique}
use payment_wallet_system.Db.Tx.{ok}
use payment_wallet_system.Db.Writes.{Stamp, fits, find_wallet}
use payment_wallet_system.Payment.Providers.{ProviderResult}
use payment_wallet_system.Payment.Settlement.{
  TransactionContext, settle_deposit, settle_locked, settle_tx, fail_tx,
}
use payment_wallet_system.Delivery.Progress.{
  Delivered, IsReady, CustomerFree, fail_deposit-completes, fail_locked-completes,
  mark_settled-completes, record_outcome-completes, finish_deposit-completes,
}

abbrev pub party_of : TransactionType → TransactionContext → Option Uuid
party_of deposit_type ctx = ctx.receiver_wallet_id
party_of withdrawal_type ctx = ctx.sender_wallet_id
party_of transfer_type ctx = none

-- The wallet is there, and no balance of it leaves the range of its column.
pub record HasRoom (ctx : TransactionContext) (db : Db) : Type 0 where
  pub wallet : Wallet
  pub party : party_of ctx.type ctx ≡ some wallet.id
  pub found : find_wallet wallet.id db ≡ some wallet
  pub amount_fits : fits ctx.amount ≡ true
  pub available_fits : fits wallet.available_balance ≡ true
  pub locked_fits : fits wallet.locked_balance ≡ true
  pub pending_fits : fits wallet.pending_balance ≡ true
  pub credit_fits : fits (wallet.available_balance +ℤ ctx.amount) ≡ true
  pub unlock_fits : fits (wallet.locked_balance -ℤ ctx.amount) ≡ true
  pub clear_fits : fits (wallet.pending_balance -ℤ ctx.amount) ≡ true

settle_deposit-completes :
    (s : Stamp) (ctx : TransactionContext) (event_id : Uuid) (r : ProviderResult) (db : Db)
    → ctx.type ≡ deposit_type
    → IsReady s ctx event_id db
    → HasRoom ctx db
    → CustomerFree ctx.user_id r db
    → (db' : Db) × (settle_deposit s ctx event_id r db ≡ ok (tt, db'))
      × Delivered s.now event_id db'
unfolding settle_deposit
settle_deposit-completes s ctx event_id r db k h room free =
    let w = room.wallet in
    let w' : Wallet = record w {
      pending_balance = w.pending_balance -ℤ ctx.amount;
      available_balance = w.available_balance +ℤ ctx.amount;
    } in
    let mid : Db = record db { wallets = replace (λ v. v.id) w.id w' db.wallets } in
    let (after, marked, outbox, logs, users) =
      mark_settled-completes s ctx w.id credit (w.available_balance +ℤ ctx.amount) r h.row mid
        h.found h.new_entry room.amount_fits room.credit_fits in
    let (db', done, delivered) =
      finish_deposit-completes s ctx event_id r after h.event h.provider
        (ap (find_unique (λ v. v.id) event_id) outbox ∙ h.waits) h.has_provider
        (ap (find_unique (λ v. v.id) s.log_id) logs ∙ h.new_log)
        (ap (find_unique (λ v. v.transaction_id) ctx.id) logs ∙ h.unresolved)
        (subst (λ us. CustomerFree ctx.user_id r (record after { users = us })) (sym users) free) in
    let party = room.party in
    let found = room.found in
    let l = room.locked_fits in
    let c = room.credit_fits in let p = room.clear_fits in (db', ground arith, delivered)

settle_locked-completes :
    (s : Stamp) (ctx : TransactionContext) (event_id : Uuid) (r : ProviderResult) (db : Db)
    → ctx.type ≡ withdrawal_type
    → IsReady s ctx event_id db
    → HasRoom ctx db
    → (db' : Db) × (settle_locked s ctx event_id r db ≡ ok (tt, db')) × Delivered s.now event_id db'
unfolding settle_locked
settle_locked-completes s ctx event_id r db k h room =
    let w = room.wallet in
    let w' : Wallet = record w { locked_balance = w.locked_balance -ℤ ctx.amount } in
    let mid : Db = record db { wallets = replace (λ v. v.id) w.id w' db.wallets } in
    let (after, marked, outbox, logs, users) =
      mark_settled-completes s ctx w.id debit (w.locked_balance -ℤ ctx.amount) r h.row mid h.found
        h.new_entry room.amount_fits room.unlock_fits in
    let (db', done, delivered) =
      record_outcome-completes s ctx event_id r settled after h.event h.provider
        (ap (find_unique (λ v. v.id) event_id) outbox ∙ h.waits) h.has_provider
        (ap (find_unique (λ v. v.id) s.log_id) logs ∙ h.new_log)
        (ap (find_unique (λ v. v.transaction_id) ctx.id) logs ∙ h.unresolved) in
    let party = room.party in
    let found = room.found in
    let a = room.available_fits in
    let u = room.unlock_fits in let p = room.pending_fits in (db', ground arith, delivered)

pub settle_tx-completes :
    (k : TransactionType) (s : Stamp) (ctx : TransactionContext) (event_id : Uuid)
    (r : ProviderResult) (db : Db)
    → ctx.type ≡ k
    → IsReady s ctx event_id db
    → HasRoom ctx db
    → CustomerFree ctx.user_id r db
    → (db' : Db) × (settle_tx k s ctx event_id r db ≡ ok (tt, db')) × Delivered s.now event_id db'
unfolding settle_tx
settle_tx-completes deposit_type s ctx event_id r db k h room free =
    settle_deposit-completes s ctx event_id r db k h room free
settle_tx-completes withdrawal_type s ctx event_id r db k h room free =
    settle_locked-completes s ctx event_id r db k h room
settle_tx-completes transfer_type s ctx event_id r db k h room free =
    absurd (no_party (ap (λ j. party_of j ctx) (sym k) ∙ room.party))
  where
    no_party : {w : Uuid} → none ≡ some w → ⊥
    no_party e = cc

pub fail_tx-completes :
    (k : TransactionType) (s : Stamp) (ctx : TransactionContext) (event_id : Uuid)
    (r : ProviderResult) (db : Db)
    → ctx.type ≡ k
    → IsReady s ctx event_id db
    → HasRoom ctx db
    → (db' : Db) × (fail_tx k s ctx event_id r db ≡ ok (tt, db')) × Delivered s.now event_id db'
unfolding fail_tx
fail_tx-completes deposit_type s ctx event_id r db k h room =
    fail_deposit-completes s ctx event_id r db room.wallet h
      (ap (λ j. party_of j ctx) (sym k) ∙ room.party) room.found room.available_fits
      room.locked_fits room.clear_fits
fail_tx-completes withdrawal_type s ctx event_id r db k h room =
    fail_locked-completes s ctx event_id r db room.wallet h
      (ap (λ j. party_of j ctx) (sym k) ∙ room.party) room.found room.credit_fits room.unlock_fits
      room.pending_fits
fail_tx-completes transfer_type s ctx event_id r db k h room =
    absurd (no_party (ap (λ j. party_of j ctx) (sym k) ∙ room.party))
  where
    no_party : {w : Uuid} → none ≡ some w → ⊥
    no_party e = cc
