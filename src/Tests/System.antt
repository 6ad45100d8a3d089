-- ===== src/Tests/System.antt =====
-- The theorems on whole histories, applied.
use payment_wallet_system.Prelude.{refl, false, [], ◌∷◌, arith, List}
use payment_wallet_system.Books.Deposits.{deposit_input}
use payment_wallet_system.Books.Effects.{balance, locked}
use payment_wallet_system.Books.Soundness.{IsSound}
use payment_wallet_system.Books.Transfers.{transfer_input}
use payment_wallet_system.Books.Withdrawals.{withdrawal_input}
use payment_wallet_system.Db.Table.{find_unique, replace}
use payment_wallet_system.Db.Writes.{fits}
use payment_wallet_system.Idempotency.Keys.{Throws, key_taken-Throws}
use payment_wallet_system.Idempotency.Replays.{
  IsReplay, deposit-replays, transfer-replays, withdraw-replays,
}
use payment_wallet_system.Payment.Processor.{handle_result, process_event, process_events}
use payment_wallet_system.Payment.Providers.{resolve_process}
use payment_wallet_system.Payment.Repository.{customer_taken, find_pending_provider_events}
use payment_wallet_system.Payment.Service.{confirm_deposit_tx, create_payout_tx}
use payment_wallet_system.Payment.Settlement.{finish_deposit, mark_settled, settle, settle_deposit}
use payment_wallet_system.Prelude.Int.{pos, ◌+ℤ◌, ◌-ℤ◌, ◌≤ℤ◌}
use payment_wallet_system.System.Changes.{Reach-IsSound}
use payment_wallet_system.System.Requests.{
  Request, poll, post_withdrawal, run, run-IsSound, run-nonneg, run-Reach,
}
use payment_wallet_system.Tests.Data.{
  busy, by_paypal, env_of, genesis, genesis-IsSound, money, paid_in, paid_row, paypal_payout, stamp,
  to_two, unwilling,
}
use payment_wallet_system.Transaction.{deposit_row, execute_transfer, transfer_row, withdrawal_row}
use payment_wallet_system.Transaction.Service.{
  MutationResult, deposit, deposit_tx, lock_order, to_result, transfer, transfer_locked,
  transfer_tx, withdraw, withdraw_tx,
}

run-IsSound_example : IsSound (run busy genesis)
run-IsSound_example = run-IsSound busy genesis genesis-IsSound

Reach-IsSound_example : IsSound (run busy genesis)
Reach-IsSound_example = Reach-IsSound (run-Reach busy genesis) genesis-IsSound

run-nonneg_example : pos 0 ≤ℤ balance locked 12 (run busy genesis)
run-nonneg_example = run-nonneg busy genesis locked 12 genesis-IsSound

-- A withdrawal of user 1 is answered, and sent again by user 2 after a while.
abbrev withdraw_answer : MutationResult
withdraw_answer = record {
  content = to_result (withdrawal_row (stamp 3) (withdrawal_input (money 30 9) 12));
  replayed = false;
}

abbrev deposit_answer : MutationResult
deposit_answer = record {
  content = to_result (deposit_row (stamp 3) (deposit_input (money 30 9) 12));
  replayed = false;
}

abbrev transfer_answer : MutationResult
transfer_answer = record {
  content = to_result (transfer_row (stamp 3) (transfer_input (to_two 120 9) 12 11));
  replayed = false;
}

abbrev later : List Request
later = post_withdrawal (stamp 5) 1 (money 1 20) ∷ poll (env_of unwilling 3000) ∷ []

deposit-replays_example :
    IsReplay deposit_answer
      (run later (deposit (stamp 3) 1 (money 30 9) genesis).1)
      (deposit (stamp 6) 2 (money 90 9) (run later (deposit (stamp 3) 1 (money 30 9) genesis).1))
unfolding find_unique fits ◌+ℤ◌ run
deposit-replays_example =
    deposit-replays (stamp 3) (stamp 6) 1 2 (money 30 9) (money 90 9) genesis
      (deposit (stamp 3) 1 (money 30 9) genesis).1 deposit_answer later genesis-IsSound
      (omega arith) refl refl

withdraw-replays_example :
    IsReplay withdraw_answer
      (run later (withdraw (stamp 3) 1 (money 30 9) (run paid_in genesis)).1)
      (withdraw
        (stamp 6)
        2
        (money 90 9)
        (run later (withdraw (stamp 3) 1 (money 30 9) (run paid_in genesis)).1))
unfolding find_unique replace fits ◌+ℤ◌ ◌-ℤ◌ process_event process_events
    find_pending_provider_events resolve_process handle_result settle settle_deposit mark_settled
    finish_deposit customer_taken run
withdraw-replays_example =
    withdraw-replays (stamp 3) (stamp 6) 1 2 (money 30 9) (money 90 9) (run paid_in genesis)
      (withdraw (stamp 3) 1 (money 30 9) (run paid_in genesis)).1 withdraw_answer later
      (run-IsSound paid_in genesis genesis-IsSound) (omega arith) refl refl

transfer-replays_example :
    IsReplay transfer_answer
      (run later (transfer (stamp 3) 1 (to_two 120 9) (run paid_in genesis)).1)
      (transfer
        (stamp 6)
        1
        (to_two 120 9)
        (run later (transfer (stamp 3) 1 (to_two 120 9) (run paid_in genesis)).1))
unfolding find_unique replace fits ◌+ℤ◌ ◌-ℤ◌ process_event process_events
    find_pending_provider_events resolve_process handle_result settle settle_deposit mark_settled
    finish_deposit customer_taken run transfer execute_transfer transfer_locked lock_order
    transfer_tx
transfer-replays_example =
    transfer-replays (stamp 3) (stamp 6) 1 (to_two 120 9) (run paid_in genesis)
      (transfer (stamp 3) 1 (to_two 120 9) (run paid_in genesis)).1 transfer_answer later
      (run-IsSound paid_in genesis genesis-IsSound) (omega arith) refl

key_taken-Throws_example :
    Throws (deposit_tx (stamp 5) 2 (money 30 7) (run paid_in genesis))
    × Throws (withdraw_tx (stamp 5) 2 (money 30 7) (run paid_in genesis))
    × Throws (transfer_tx (stamp 5) 1 12 11 (to_two 30 7) (run paid_in genesis))
    × Throws (confirm_deposit_tx (stamp 5) 2 (by_paypal 30 7) (run paid_in genesis))
    × Throws (create_payout_tx (stamp 5) 2 (paypal_payout 30 7) (run paid_in genesis))
unfolding find_unique replace fits ◌+ℤ◌ ◌-ℤ◌ process_event process_events
    find_pending_provider_events resolve_process handle_result settle settle_deposit mark_settled
    finish_deposit customer_taken run transfer execute_transfer transfer_locked lock_order
    transfer_tx
key_taken-Throws_example =
    key_taken-Throws 7 (run paid_in genesis) paid_row (stamp 5) 2 12 11 (money 30 7) (to_two 30 7)
      (by_paypal 30 7) (paypal_payout 30 7) refl refl refl refl refl
