-- ===== src/Tests/Runs.antt =====
-- The model computes.
use payment_wallet_system.Prelude.{◌≡◌, refl}
use payment_wallet_system.Books.Effects.{available, balance, locked, pending}
use payment_wallet_system.Db.Table.{find_unique, replace}
use payment_wallet_system.Db.Writes.{fits}
use payment_wallet_system.Payment.Processor.{
  attempt_for, handle_result, process_event, process_events,
}
use payment_wallet_system.Payment.Providers.{paypal_process, resolve_process, stripe_process}
use payment_wallet_system.Payment.Repository.{
  customer_taken, find_pending_provider_events, increment_retry, mark_delivered,
  upsert_braintree_customer_id,
}
use payment_wallet_system.Payment.Service.{create_payout, create_payout_tx, payout_payload}
use payment_wallet_system.Payment.Settlement.{finish_deposit, mark_settled, settle, settle_deposit}
use payment_wallet_system.Prelude.Int.{pos, ◌+ℤ◌, ◌-ℤ◌}
use payment_wallet_system.System.Requests.{run}
use payment_wallet_system.Tests.Data.{busy, genesis, paid_in}
use payment_wallet_system.Transaction.{execute_transfer}
use payment_wallet_system.Transaction.Service.{lock_order, transfer, transfer_locked, transfer_tx}

paid_in_balances :
    (balance available 12 (run paid_in genesis) ≡ pos 500)
    × (balance pending 12 (run paid_in genesis) ≡ pos 0)
unfolding find_unique replace fits ◌+ℤ◌ ◌-ℤ◌ process_event process_events
    find_pending_provider_events resolve_process handle_result settle settle_deposit mark_settled
    finish_deposit customer_taken run
paid_in_balances = (refl, refl)

-- The deposit by PayPal is settled at once; the other two wait.
busy_balances :
    (balance available 12 (run busy genesis) ≡ pos 300)
    × (balance locked 12 (run busy genesis) ≡ pos 80)
    × (balance available 11 (run busy genesis) ≡ pos 120)
unfolding find_unique replace fits ◌+ℤ◌ ◌-ℤ◌ process_event process_events
    find_pending_provider_events resolve_process handle_result settle settle_deposit mark_settled
    finish_deposit customer_taken run transfer create_payout payout_payload execute_transfer
    transfer_locked lock_order attempt_for upsert_braintree_customer_id stripe_process
    paypal_process transfer_tx create_payout_tx increment_retry mark_delivered
busy_balances = (refl, refl, refl)
