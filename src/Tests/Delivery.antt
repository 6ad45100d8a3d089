-- ===== src/Tests/Delivery.antt =====
-- The theorems on the outbox and the outcomes, applied.
use payment_wallet_system.Prelude.{◌≡◌, refl, false, some, inl, inr, [], ◌∷◌, ◌⊎◌, ◌≤◌}
use payment_wallet_system.Books.Deposits.{deposit_input}
use payment_wallet_system.Books.Resolving.{Describes}
use payment_wallet_system.Db.Query.{Ascending, Every}
use payment_wallet_system.Db.Schema.{
  Db, OutboxEvent, Transaction, Wallet, deposit_initiated, paypal, settled, stripe, usd,
}
use payment_wallet_system.Db.Table.{find_unique, replace}
use payment_wallet_system.Db.Tx.{Refuses, with_transaction}
use payment_wallet_system.Db.Writes.{fits}
use payment_wallet_system.Delivery.Answers.{EndsWith, answered_event-ends}
use mathlib.Core.List.{Memᴰ}
use payment_wallet_system.Delivery.Retries.{IsOnlyRetried, internal_operations-IsOnlyRetried}
use payment_wallet_system.Delivery.Batches.{IsPending, Reaches, find_pending_provider_events_lem}
use payment_wallet_system.Delivery.Completion.{HasRoom}
use payment_wallet_system.Delivery.Hand.{stripe_event-unsettled}
use payment_wallet_system.Delivery.Progress.{CustomerFree, IsReady}
use payment_wallet_system.Idempotency.Outcomes.{outcome_once}
use payment_wallet_system.Payment.Processor.{catch_retry, context, process_event}
use payment_wallet_system.Payment.Providers.{ProviderResult, paypal_process, resolve_process}
use payment_wallet_system.Payment.Repository.{
  customer_taken, find_pending_provider_events, mark_delivered,
}
use payment_wallet_system.Payment.Service.{confirmed_row, deposit_payload}
use payment_wallet_system.Payment.Settlement.{
  TransactionContext, fail, finish_deposit, mark_settled, settle, settle_deposit,
}
use payment_wallet_system.Prelude.Int.{pos, ◌+ℤ◌, ◌-ℤ◌}
use payment_wallet_system.Prelude.Lists.{length}
use payment_wallet_system.System.Requests.{post_confirmation, post_deposit, run}
use payment_wallet_system.Tests.Data.{
  busy, by_paypal, by_stripe, confirmed_in, confirmed_in-IsSound, empty_wallet, env_of, genesis,
  money, open-Describes, open_row, paid_row, sold, stamp, user_row, willing,
}
use payment_wallet_system.Transaction.{deposit_row, outbox_event}
use payment_wallet_system.Transaction.Service.{MutationResult, to_result, wallet_payload}

abbrev ctx : TransactionContext
ctx = context open_row 1

abbrev paid_event : OutboxEvent
paid_event =
    outbox_event (stamp 1) 101 deposit_initiated
      (deposit_payload paypal (by_paypal 500 7) (wallet_payload 12 1 (pos 500) usd))

abbrev pending_wallet : Wallet
pending_wallet = record (empty_wallet 12 1) { pending_balance = pos 500 }

paid-Describes : Describes ctx paid_row
paid-Describes = record {
  same_type = refl;
  same_amount = refl;
  same_sender = refl;
  same_receiver = refl;
}

-- A deposit that is settled is not settled or failed again.
outcome_once_example :
    Refuses
      (run [] (settle (stamp 1401) ctx 401 sold confirmed_in).1)
      (settle (stamp 5000) ctx 401 sold (run [] (settle (stamp 1401) ctx 401 sold confirmed_in).1))
    × Refuses
        (run [] (settle (stamp 1401) ctx 401 sold confirmed_in).1)
        (fail (stamp 5000) ctx 401 sold (run [] (settle (stamp 1401) ctx 401 sold confirmed_in).1))
unfolding find_unique replace fits ◌+ℤ◌ ◌-ℤ◌ settle settle_deposit mark_settled finish_deposit
    customer_taken run
outcome_once_example =
    outcome_once (stamp 1401) (stamp 5000) ctx ctx 401 401 sold sold open_row paid_row confirmed_in
      (settle (stamp 1401) ctx 401 sold confirmed_in).1 [] confirmed_in-IsSound refl open-Describes
      (inl refl) refl refl paid-Describes

confirmed_in-IsReady : IsReady (stamp 1401) ctx 401 confirmed_in
unfolding find_unique fits ◌+ℤ◌ run
confirmed_in-IsReady = record {
  row = open_row;
  event = paid_event;
  provider = paypal;
  found = refl;
  waits = refl;
  has_provider = refl;
  new_entry = refl;
  new_log = refl;
  unresolved = refl;
}

confirmed_in-HasRoom : HasRoom ctx confirmed_in
unfolding find_unique replace fits ◌+ℤ◌ ◌-ℤ◌ run
confirmed_in-HasRoom = record {
  wallet = pending_wallet;
  party = refl;
  found = refl;
  amount_fits = refl;
  available_fits = refl;
  locked_fits = refl;
  pending_fits = refl;
  credit_fits = refl;
  unlock_fits = refl;
  clear_fits = refl;
}

confirmed_in-CustomerFree : CustomerFree 1 sold confirmed_in
unfolding find_unique fits ◌+ℤ◌ customer_taken run
confirmed_in-CustomerFree = inr ("customer", user_row 1 (some "one@example.org"), refl, refl, refl)

answered_event-ends_example :
    EndsWith settled 1401 401 101 (process_event (env_of willing 1000) paid_event confirmed_in)
unfolding find_unique fits ◌+ℤ◌ resolve_process run
answered_event-ends_example =
    answered_event-ends (env_of willing 1000) paid_event open_row 1 paypal (paypal_process willing)
      confirmed_in confirmed_in-IsSound refl refl refl refl refl confirmed_in-IsReady
      confirmed_in-HasRoom confirmed_in-CustomerFree

abbrev stripe_row : Transaction
stripe_row = confirmed_row (stamp 1) (by_stripe 500 7) 12

abbrev stripe_event : OutboxEvent
stripe_event =
    outbox_event (stamp 1) 101 deposit_initiated
      (deposit_payload stripe (by_stripe 500 7) (wallet_payload 12 1 (pos 500) usd))

abbrev stripe_in : Db
stripe_in = run (post_confirmation (stamp 1) 1 (by_stripe 500 7) ∷ []) genesis

stripe_event-unsettled_example :
    (process_event (env_of willing 1000) stripe_event stripe_in
      ≡ catch_retry 401 (with_transaction (mark_delivered 1401 401) stripe_in))
    ⊎ ((r : ProviderResult) × (process_event (env_of willing 1000) stripe_event stripe_in
          ≡ catch_retry 401 (fail (stamp 1401) (context stripe_row 1) 401 r stripe_in)))
unfolding find_unique fits ◌+ℤ◌ run
stripe_event-unsettled_example =
    stripe_event-unsettled (env_of willing 1000) stripe_event stripe_row 1 stripe_in refl refl refl

abbrev internal_in : Db
internal_in = run (post_deposit (stamp 1) 1 (money 500 7) ∷ []) genesis

abbrev internal_answer : MutationResult
internal_answer = record {
  content = to_result (deposit_row (stamp 1) (deposit_input (money 500 7) 12));
  replayed = false;
}

internal_operations-IsOnlyRetried_example : IsOnlyRetried (stamp 1) internal_in
unfolding find_unique fits ◌+ℤ◌ run
internal_operations-IsOnlyRetried_example =
    internal_operations-IsOnlyRetried (stamp 1) 1 (money 500 7) genesis internal_in internal_answer
      refl (inl refl)

find_pending_provider_events_lem_example :
    let batch = find_pending_provider_events 1 5 (run busy genesis) in
    (length batch ≤ 1)
    × Ascending (λ e. e.created_at) batch
    × Every (IsPending 5) batch
    × Every (λ e. Memᴰ e (run busy genesis).outbox) batch
    × ((e : OutboxEvent) → Memᴰ e (run busy genesis).outbox → IsPending 5 e → Reaches 1 batch e)
find_pending_provider_events_lem_example = find_pending_provider_events_lem 1 5 (run busy genesis)
