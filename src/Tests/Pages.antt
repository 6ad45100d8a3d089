-- ===== src/Tests/Pages.antt =====
-- The ledger page by page.
use payment_wallet_system.Prelude.{◌≡◌, refl, none, true, map, arith}
use payment_wallet_system.Db.Query.{order_by, where_rows}
use payment_wallet_system.Db.Table.{find_unique, replace}
use payment_wallet_system.Db.Writes.{fits}
use payment_wallet_system.Pages.{DistinctIds, IsComplete, fetch_ledger_page_lem}
use payment_wallet_system.Payment.Processor.{
  attempt_for, handle_result, process_event, process_events,
}
use payment_wallet_system.Payment.Providers.{paypal_process, resolve_process, stripe_process}
use payment_wallet_system.Payment.Repository.{
  customer_taken, find_pending_provider_events, increment_retry, mark_delivered,
  upsert_braintree_customer_id,
}
use payment_wallet_system.Payment.Service.{create_payout, create_payout_tx, payout_payload}
use payment_wallet_system.Payment.Settlement.{finish_deposit, mark_settled, settle, settle_deposit}
use payment_wallet_system.Prelude.Int.{pos, ◌+ℤ◌, ◌-ℤ◌}
use payment_wallet_system.Prelude.Lists.{length}
use payment_wallet_system.Pages.Numbered.{
  get_transaction_history_lem, items_of, later_first, pages_up_to,
}
use payment_wallet_system.Db.Tx.{ok}
use payment_wallet_system.Transaction.History.{
  PaginatedTransactions, get_transaction_history, of_wallet,
}
use payment_wallet_system.System.Requests.{run}
use payment_wallet_system.Tests.Data.{busy, empty_wallet, genesis}
use payment_wallet_system.Transaction.{execute_transfer}
use payment_wallet_system.Transaction.Service.{
  get_transaction, to_result, lock_order, transfer, transfer_locked, transfer_tx,
}
use payment_wallet_system.Wallet.Pages.{fetch_ledger_page, find_ledger_page}

-- Wallet 12 has three entries, and the first page shows the newest of them.
first_page :
    (length (fetch_ledger_page 12 none 1 (run busy genesis)).entries ≡ 1)
    × ((fetch_ledger_page 12 none 1 (run busy genesis)).has_more ≡ true)
    × (length (fetch_ledger_page 12 none 100 (run busy genesis)).entries ≡ 3)
unfolding find_unique replace fits ◌+ℤ◌ ◌-ℤ◌ process_event process_events
    find_pending_provider_events resolve_process handle_result settle settle_deposit mark_settled
    finish_deposit customer_taken run transfer create_payout payout_payload execute_transfer
    transfer_locked lock_order attempt_for upsert_braintree_customer_id stripe_process
    paypal_process transfer_tx create_payout_tx increment_retry mark_delivered get_transaction
    fetch_ledger_page find_ledger_page
first_page = (refl, refl, refl)

busy-DistinctIds : DistinctIds (run busy genesis).ledger
unfolding find_unique replace fits ◌+ℤ◌ ◌-ℤ◌ process_event process_events
    find_pending_provider_events resolve_process handle_result settle settle_deposit mark_settled
    finish_deposit customer_taken run transfer create_payout payout_payload execute_transfer
    transfer_locked lock_order attempt_for upsert_braintree_customer_id stripe_process
    paypal_process transfer_tx create_payout_tx increment_retry mark_delivered
busy-DistinctIds = ((refl, (refl, (refl, tt))), ((refl, (refl, tt)), ((refl, tt), (tt, tt))))

fetch_ledger_page_lem_example :
    IsComplete 12 none 1 (run busy genesis) (fetch_ledger_page 12 none 1 (run busy genesis))
fetch_ledger_page_lem_example =
    fetch_ledger_page_lem 12 none (run busy genesis) busy-DistinctIds 1 (omega arith)

-- The history of user 1, in pages of two.
get_transaction_history_lem_example :
    (p : PaginatedTransactions) × (get_transaction_history (λ t. t.id) 1 1 3 (run busy genesis)
      ≡ ok (p, run busy genesis))
    × (pages_up_to
          (λ n. items_of (get_transaction_history (λ t. t.id) 1 n 3 (run busy genesis)))
          p.total_pages
        ≡ map to_result
            (order_by later_first (where_rows (of_wallet 12) (run busy genesis).transactions)))
unfolding find_unique replace fits ◌+ℤ◌ ◌-ℤ◌ process_event process_events
    find_pending_provider_events resolve_process handle_result settle settle_deposit mark_settled
    finish_deposit customer_taken run transfer create_payout payout_payload execute_transfer
    transfer_locked lock_order attempt_for upsert_braintree_customer_id stripe_process
    paypal_process transfer_tx create_payout_tx increment_retry mark_delivered get_transaction
    fetch_ledger_page find_ledger_page
get_transaction_history_lem_example =
    get_transaction_history_lem (λ n t. t.id) 1
      (record (empty_wallet 12 1) { available_balance = pos 300; locked_balance = pos 80 }) 1 3
      (run busy genesis) (omega arith) refl
      ((refl, (refl, (refl, tt))), ((refl, (refl, tt)), ((refl, tt), (tt, tt))))
