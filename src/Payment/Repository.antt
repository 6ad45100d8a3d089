-- ===== src/Payment/Repository.antt =====
-- src/modules/payment/payment.repository.ts, and the write of users.repository.ts that a settlement
-- makes.
use text.Mathlib.Text.{◌==◌ as str_eq}
use payment_wallet_system.Prelude.{
  ℕ, ◌+◌, String, Option, none, some, Bool, true, false, not, ◌&&◌, List, [], ◌∷◌, ltb, is_none,
  ◌==◌, if◌then◌else◌,
}
use payment_wallet_system.Db.Schema.{
  Uuid, Time, Provider, TransactionStatus, RawResponse, OutboxEvent, EventType, deposit_initiated,
  withdrawal_initiated, User, Db,
}
use payment_wallet_system.Db.Table.{replace}
use payment_wallet_system.Db.Query.{find_many}
use payment_wallet_system.Db.Tx.{
  Tx, ok, database_error, unique_violation, record_not_found, or_throw, gets, pure, ensure, modify,
  ◌>>=◌, ◌>>◌,
}
use payment_wallet_system.Db.Writes.{
  Stamp, find_user, update_transaction, update_outbox_event, insert_payment_log,
}

-- An optional text, where an empty one counts as absent.
abbrev pub truthy : Option String → Option String
truthy none = none
truthy (some String.[]) = none
truthy (some (String.◌∷◌ c s)) = some (String.◌∷◌ c s)

abbrev pub is_provider_event : EventType → Bool
is_provider_event deposit_initiated = true
is_provider_event withdrawal_initiated = true
is_provider_event _ = false

abbrev pub is_pending_event : ℕ → OutboxEvent → Bool
is_pending_event max_retries e =
    is_none e.delivered_at && ltb e.retry_count max_retries && is_provider_event e.event_type

-- `findPendingProviderEvents(limit, maxRetries)`
unfoldable pub find_pending_provider_events : ℕ → ℕ → Db → List OutboxEvent
unfolding find_many
find_pending_provider_events limit max_retries db =
    find_many (is_pending_event max_retries) (λ a b. ltb a.created_at b.created_at) limit db.outbox

unfoldable pub mark_delivered : Time → Uuid → Tx (Unit {0})
unfolding update_outbox_event
mark_delivered now id = do
  update_outbox_event id (λ e. record e { delivered_at = some now })
  pure tt

unfoldable pub increment_retry : Uuid → Tx (Unit {0})
unfolding update_outbox_event
increment_retry id = do
  update_outbox_event id (λ e. record e { retry_count = e.retry_count + 1 })
  pure tt

unfoldable pub create_payment_log :
    Stamp → Uuid → Provider → Option String → RawResponse → TransactionStatus → Tx (Unit {0})
unfolding insert_payment_log
create_payment_log s transaction_id provider provider_ref payload status = do
  insert_payment_log (record {
    id = s.log_id;
    transaction_id = transaction_id;
    provider = provider;
    provider_ref = provider_ref;
    payload = payload;
    status = status;
    created_at = s.now;
  })
  pure tt

unfoldable pub set_provider_ref : Uuid → String → Tx (Unit {0})
unfolding update_transaction
set_provider_ref id provider_ref = do
  update_transaction id (λ t. record t { provider_ref = some provider_ref })
  pure tt

abbrev pub holds_customer : String → Option String → Bool
holds_customer c none = false
holds_customer c (some d) = str_eq d c

-- A user other than `id` has the customer, whose column is unique.
unfoldable pub customer_taken : Uuid → String → List User → Bool
customer_taken id c [] = false
customer_taken id c (u ∷ us) =
    if not (u.id == id) && holds_customer c u.braintree_customer_id
    then true
    else customer_taken id c us

abbrev pub customer_is : String → Option User → Bool
customer_is c none = false
customer_is c (some u) = holds_customer c u.braintree_customer_id

unfoldable write_customer : Uuid → String → Tx (Unit {0})
write_customer id c = do
  u ← or_throw (← gets (find_user id)) (database_error record_not_found)
  ensure (not (← gets (λ db. customer_taken id c db.users))) (database_error unique_violation)
  modify (λ db. record db {
    users = replace (λ v. v.id) id (record u { braintree_customer_id = some c }) db.users;
  })

-- `upsertBraintreeCustomerId`, which writes nothing if the user has that customer.
unfoldable pub upsert_braintree_customer_id : Uuid → String → Tx (Unit {0})
unfolding write_customer
upsert_braintree_customer_id id c db =
    if customer_is c (find_user id db) then ok (tt, db) else write_customer id c db
