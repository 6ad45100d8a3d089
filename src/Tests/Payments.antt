-- ===== src/Tests/Payments.antt =====
-- The requests of the payment service, sent again.
use payment_wallet_system.Prelude.{refl, [], ◌∷◌, arith, List}
use payment_wallet_system.Db.Schema.{initiated}
use payment_wallet_system.Db.Table.{find_unique, replace}
use payment_wallet_system.Db.Writes.{fits}
use payment_wallet_system.Idempotency.Payments.{
  IsPaymentReplay, confirm_deposit-replays, create_payout-replays,
}
use payment_wallet_system.Payment.Processor.{handle_result, process_event, process_events}
use payment_wallet_system.Payment.Providers.{resolve_process}
use payment_wallet_system.Payment.Repository.{customer_taken, find_pending_provider_events}
use payment_wallet_system.Payment.Service.{
  PaymentResult, confirm_deposit, create_payout, create_payout_tx, payout_payload,
}
use payment_wallet_system.Payment.Settlement.{finish_deposit, mark_settled, settle, settle_deposit}
use payment_wallet_system.Prelude.Int.{◌+ℤ◌, ◌-ℤ◌}
use payment_wallet_system.System.Requests.{Request, poll, post_withdrawal, run, run-IsSound}
use payment_wallet_system.Tests.Data.{
  by_paypal, env_of, genesis, genesis-IsSound, money, paid_in, paypal_payout, stamp, unwilling,
}

abbrev later : List Request
later = post_withdrawal (stamp 5) 1 (money 1 20) ∷ poll (env_of unwilling 3000) ∷ []

abbrev payment : PaymentResult
payment = record { transaction_id = 101; status = initiated }

confirm_deposit-replays_example :
    IsPaymentReplay payment (run later (confirm_deposit (stamp 1) 1 (by_paypal 500 7) genesis).1) (
      confirm_deposit
        (stamp 6)
        2
        (by_paypal 9 7)
        (run later (confirm_deposit (stamp 1) 1 (by_paypal 500 7) genesis).1))
unfolding find_unique fits ◌+ℤ◌ run
confirm_deposit-replays_example =
    confirm_deposit-replays (stamp 1) (stamp 6) 1 2 (by_paypal 500 7) (by_paypal 9 7) genesis
      (confirm_deposit (stamp 1) 1 (by_paypal 500 7) genesis).1 payment later genesis-IsSound
      (omega arith) refl refl

abbrev payout : PaymentResult
payout = record { transaction_id = 103; status = initiated }

create_payout-replays_example :
    IsPaymentReplay payout
      (run later (create_payout (stamp 3) 1 (paypal_payout 50 9) (run paid_in genesis)).1)
      (create_payout
        (stamp 6)
        2
        (paypal_payout 90 9)
        (run later (create_payout (stamp 3) 1 (paypal_payout 50 9) (run paid_in genesis)).1))
unfolding find_unique replace fits ◌+ℤ◌ ◌-ℤ◌ process_event process_events
    find_pending_provider_events resolve_process handle_result settle settle_deposit mark_settled
    finish_deposit customer_taken run create_payout payout_payload create_payout_tx
create_payout-replays_example =
    create_payout-replays (stamp 3) (stamp 6) 1 2 (paypal_payout 50 9) (paypal_payout 90 9)
      (run paid_in genesis) (create_payout (stamp 3) 1 (paypal_payout 50 9) (run paid_in genesis)).1
      payout later (run-IsSound paid_in genesis genesis-IsSound) (omega arith) refl refl
