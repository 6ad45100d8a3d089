-- ===== src/Tests/Services.antt =====
-- The theorems on single calls, applied.
use payment_wallet_system.Prelude.{◌≡◌, refl, some, true, inr, arith, ◌⊎◌, ℕ}
use payment_wallet_system.Acceptance.{Accepted, IsNew, IsOpen, withdraw-Accepted}
use payment_wallet_system.Acceptance.Transfers.{transfer-Accepted}
use payment_wallet_system.Books.Conservation.{total, transfer-conserves, withdraw-conserves}
use payment_wallet_system.Books.Effects.{available, locked}
use payment_wallet_system.Books.Resolving.{Resolves}
use payment_wallet_system.Db.Query.{find_many, insert_by, order_by, where_rows}
use payment_wallet_system.Db.Schema.{Db, Transaction, Wallet, deposit_type, failed, settled, usd}
use payment_wallet_system.Db.Table.{find_unique, replace}
use payment_wallet_system.Db.Tx.{Refuses}
use payment_wallet_system.Db.Writes.{find_transaction, fits}
use payment_wallet_system.Payment.Processor.{context, handle_result, process_event, process_events}
use payment_wallet_system.Payment.Providers.{resolve_process}
use payment_wallet_system.Payment.Repository.{customer_taken, find_pending_provider_events}
use payment_wallet_system.Payment.Service.{create_payout}
use payment_wallet_system.Payment.Settlement.{
  fail, fail_deposit, fail_locked, fail_tx, finish_deposit, mark_settled, settle, settle_deposit,
}
use payment_wallet_system.Prelude.Int.{pos, ◌+ℤ◌, ◌-ℤ◌}
use payment_wallet_system.Refusals.{CannotPay-Refuses, get_transaction-own}
use payment_wallet_system.System.Changes.{fail_tx-Resolves, settle_tx-Resolves}
use payment_wallet_system.System.Requests.{run}
use payment_wallet_system.Tests.Data.{
  confirmed_in, confirmed_in-IsSound, declined, empty_wallet, genesis, money, open-Describes,
  open_row, paid_in, paid_row, paypal_payout, sold, stamp, to_two,
}
use payment_wallet_system.Transaction.Service.{get_transaction, to_result, transfer, withdraw}
use payment_wallet_system.Wallet.{find_by_user_id}
use payment_wallet_system.Wallet.Pages.{fetch_ledger_page, find_ledger_page}

abbrev full_wallet : Wallet
full_wallet = record (empty_wallet 12 1) { available_balance = pos 500 }

abbrev full : Db
full = run paid_in genesis

transfer-conserves_example :
    total available (transfer (stamp 3) 1 (to_two 120 9) full).1 ≡ total available full
transfer-conserves_example = transfer-conserves (stamp 3) 1 (to_two 120 9) full available

withdraw-conserves_example :
    total available (withdraw (stamp 3) 1 (money 30 9) full).1
      +ℤ total locked (withdraw (stamp 3) 1 (money 30 9) full).1
    ≡ total available full +ℤ total locked full
withdraw-conserves_example = withdraw-conserves (stamp 3) 1 (money 30 9) full

full-IsNew : IsNew (stamp 3) 9 full
unfolding find_unique replace fits ◌+ℤ◌ ◌-ℤ◌ process_event process_events
    find_pending_provider_events resolve_process handle_result settle settle_deposit mark_settled
    finish_deposit customer_taken run
full-IsNew = record { new_key = refl; new_id = refl; new_entry = refl; new_event = refl }

full-IsOpen : (a : ℕ) → fits (pos a) ≡ true → IsOpen 1 usd (pos a) full_wallet full
unfolding find_unique replace fits ◌+ℤ◌ ◌-ℤ◌ process_event process_events
    find_pending_provider_events resolve_process handle_result settle settle_deposit mark_settled
    finish_deposit customer_taken run
full-IsOpen a h = record {
  of_user = refl;
  found = refl;
  is_open = refl;
  in_currency = refl;
  amount_fits = h;
  available_fits = refl;
  locked_fits = refl;
  pending_fits = refl;
}

other-IsOpen : IsOpen 2 usd (pos 120) (empty_wallet 11 2) full
unfolding find_unique replace fits ◌+ℤ◌ ◌-ℤ◌ process_event process_events
    find_pending_provider_events resolve_process handle_result settle settle_deposit mark_settled
    finish_deposit customer_taken run
other-IsOpen = record {
  of_user = refl;
  found = refl;
  is_open = refl;
  in_currency = refl;
  amount_fits = refl;
  available_fits = refl;
  locked_fits = refl;
  pending_fits = refl;
}

withdraw-Accepted_example : Accepted 9 (pos 30) full (withdraw (stamp 3) 1 (money 30 9) full)
unfolding find_unique replace fits ◌+ℤ◌ ◌-ℤ◌ customer_taken run where_rows order_by insert_by
    find_many find_ledger_page fetch_ledger_page
withdraw-Accepted_example =
    withdraw-Accepted (stamp 3) 1 (money 30 9) full full_wallet full-IsNew (full-IsOpen 30 refl)
      (omega arith) refl refl

transfer-Accepted_example : Accepted 9 (pos 120) full (transfer (stamp 3) 1 (to_two 120 9) full)
unfolding find_unique replace fits ◌+ℤ◌ ◌-ℤ◌ process_event process_events
    find_pending_provider_events resolve_process handle_result settle settle_deposit mark_settled
    finish_deposit customer_taken run
transfer-Accepted_example =
    transfer-Accepted (stamp 3) 1 (to_two 120 9) full full_wallet (empty_wallet 11 2) refl
      full-IsNew refl (full-IsOpen 120 refl) other-IsOpen refl (omega arith) refl refl

-- User 1 asks for more than there is.
CannotPay-Refuses_example :
    Refuses full (withdraw (stamp 3) 1 (money 501 9) full)
    × Refuses full (create_payout (stamp 3) 1 (paypal_payout 501 9) full)
unfolding find_unique replace fits ◌+ℤ◌ ◌-ℤ◌ process_event process_events
    find_pending_provider_events resolve_process handle_result settle settle_deposit mark_settled
    finish_deposit customer_taken run
CannotPay-Refuses_example =
    CannotPay-Refuses (stamp 3) 1 (money 501 9) (paypal_payout 501 9) full full_wallet refl refl
      refl refl (inr (inr refl)) (inr (inr refl))

get_transaction-own_example :
    (w : Wallet) × (t : Transaction) × (find_by_user_id 1 full ≡ some w)
    × (find_transaction 101 full ≡ some t)
    × (to_result paid_row ≡ to_result t)
    × ((t.sender_wallet_id ≡ some w.id) ⊎ (t.receiver_wallet_id ≡ some w.id))
unfolding find_unique replace fits ◌+ℤ◌ ◌-ℤ◌ process_event process_events
    find_pending_provider_events resolve_process handle_result settle settle_deposit mark_settled
    finish_deposit customer_taken run get_transaction fetch_ledger_page find_ledger_page
get_transaction-own_example = get_transaction-own 1 101 full full (to_result paid_row) refl

settle_tx-Resolves_example :
    (new : Transaction) × (new.status ≡ settled) × Resolves 101 confirmed_in open_row new full
unfolding find_unique replace fits ◌+ℤ◌ ◌-ℤ◌ process_event process_events
    find_pending_provider_events resolve_process handle_result settle settle_deposit mark_settled
    finish_deposit customer_taken run
settle_tx-Resolves_example =
    settle_tx-Resolves deposit_type (stamp 1401) (context open_row 1) 401 sold open_row confirmed_in
      full refl refl open-Describes refl confirmed_in-IsSound

fail_tx-Resolves_example :
    (new : Transaction) × (new.status ≡ failed)
    × Resolves 101 confirmed_in open_row new
        (fail (stamp 1401) (context open_row 1) 401 declined confirmed_in).1
unfolding find_unique replace fits ◌+ℤ◌ ◌-ℤ◌ process_event process_events
    find_pending_provider_events resolve_process handle_result settle fail settle_deposit
    fail_deposit fail_locked mark_settled finish_deposit customer_taken run fail_tx
fail_tx-Resolves_example =
    fail_tx-Resolves deposit_type (stamp 1401) (context open_row 1) 401 declined open_row
      confirmed_in (fail (stamp 1401) (context open_row 1) 401 declined confirmed_in).1 refl refl
      open-Describes refl confirmed_in-IsSound
