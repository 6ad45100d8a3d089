-- ===== src/Tests/Data.antt =====
-- Two users with a wallet each, and the requests that the tests make.
use payment_wallet_system.Prelude.{
  ◌≡◌, refl, ◌+◌, ℕ, String, Option, some, none, [], ◌∷◌, List, true, false, arith,
}
use payment_wallet_system.Prelude.Int.{pos}
use payment_wallet_system.Prelude.Lists.{sum_of}
use payment_wallet_system.Db.Schema.{
  Uuid, User, Wallet, Transaction, usd, active, plain_user, paypal, stripe, Db,
}
use payment_wallet_system.Db.Table.{find_unique}
use payment_wallet_system.Db.Writes.{Stamp}
use payment_wallet_system.Transaction.Service.{MoneyDto, TransferDto}
use payment_wallet_system.Books.Outcomes.{settled_row}
use payment_wallet_system.Payment.Service.{confirmed_row, ConfirmDepositDto, CreatePayoutDto}
use payment_wallet_system.Payment.Providers.{ProviderResult, Apis, answered, thrown, other_status}
use payment_wallet_system.Payment.Processor.{Env, context}
use payment_wallet_system.Books.Resolving.{Describes}
use payment_wallet_system.Books.Effects.{Pot, available, locked, pending, balance}
use payment_wallet_system.Books.Soundness.{IsSound}
use payment_wallet_system.System.Requests.{
  run, run-IsSound, Request, post_withdrawal, post_transfer, post_confirmation, post_payout, poll,
}

abbrev pub user_row : Uuid → Option String → User
user_row id email = record {
  id = id;
  name = "name";
  email = "";
  phone = "";
  password = "";
  role = plain_user;
  status = active;
  created_at = 0;
  stripe_connect_account_id = none;
  paypal_email = email;
  braintree_customer_id = none;
}

abbrev pub empty_wallet : Uuid → Uuid → Wallet
empty_wallet id user_id = record {
  id = id;
  user_id = user_id;
  currency = usd;
  status = active;
  available_balance = pos 0;
  locked_balance = pos 0;
  pending_balance = pos 0;
  created_at = 0;
}

-- Nothing has happened yet: user 1 has wallet 12, and user 2 has wallet 11.
abbrev pub genesis : Db
genesis = record {
  users = user_row 1 (some "one@example.org") ∷ user_row 2 none ∷ [];
  wallets = empty_wallet 12 1 ∷ empty_wallet 11 2 ∷ [];
  transactions = [];
  ledger = [];
  payment_logs = [];
  outbox = [];
  refresh_tokens = [];
}

genesis-balance : (p : Pot) (id : Uuid) → balance p id genesis ≡ pos 0
unfolding find_unique
genesis-balance available id = ground arith
genesis-balance locked id = ground arith
genesis-balance pending id = ground arith

pub genesis-IsSound : IsSound genesis
unfolding sum_of find_unique
genesis-IsSound = record {
  reconciled = genesis-balance;
  logs_match = λ id. refl;
  paid = tt;
  covered = λ j. ground (arith, genesis-balance available j);
}

-- The ids that the database makes for the `n`th call.
abbrev pub stamp : ℕ → Stamp
stamp n = record {
  now = n;
  transaction_id = 100 + n;
  entry_id = 200 + n;
  second_entry_id = 300 + n;
  event_id = 400 + n;
  log_id = 500 + n;
}

abbrev pub money : ℕ → Uuid → MoneyDto
money amount key = record {
  amount = pos amount;
  currency = usd;
  idempotency_key = key;
  description = none;
}

abbrev pub to_two : ℕ → Uuid → TransferDto
to_two amount key = record {
  amount = pos amount;
  currency = usd;
  idempotency_key = key;
  recipient_user_id = 2;
  description = some "rent";
}

abbrev pub by_paypal : ℕ → Uuid → ConfirmDepositDto
by_paypal amount key = record {
  provider = paypal;
  amount = pos amount;
  currency = usd;
  idempotency_key = key;
  description = none;
  payment_intent_id = none;
  nonce = some "nonce";
  braintree_customer_id = none;
}

abbrev pub by_stripe : ℕ → Uuid → ConfirmDepositDto
by_stripe amount key = record {
  provider = stripe;
  amount = pos amount;
  currency = usd;
  idempotency_key = key;
  description = none;
  payment_intent_id = some "intent";
  nonce = none;
  braintree_customer_id = none;
}

abbrev pub paypal_payout : ℕ → Uuid → CreatePayoutDto
paypal_payout amount key = record {
  provider = paypal;
  amount = pos amount;
  currency = usd;
  idempotency_key = key;
  description = none;
}

-- Braintree takes the sale and names a customer; Stripe and PayPal take every request.
abbrev pub willing : Apis
willing = record {
  retrieve_intent = λ id. answered (record { id = id; status = other_status; body = "intent" });
  create_stripe_payout = λ amount currency account. answered (record { id = "payout"; body = "" });
  sale = λ r. answered (record {
    success = true;
    transaction = some (record { id = "sale"; customer_id = some "customer" });
    body = "sale";
  });
  access_token = answered "token";
  post_payout = λ token r.
      answered (record { is_ok = true; payout_batch_id = some "batch"; body = "payout" });
}

-- The sale is declined, and the other calls fail.
abbrev pub unwilling : Apis
unwilling = record {
  retrieve_intent = λ id. thrown "timeout";
  create_stripe_payout = λ amount currency account. thrown "timeout";
  sale = λ r. answered (record { success = false; transaction = none; body = "declined" });
  access_token = thrown "timeout";
  post_payout = λ token r. thrown "timeout";
}

abbrev pub env_of : Apis → ℕ → Env
env_of api n = record { stamp = λ event_id. stamp (n + event_id); apis = λ event_id. api }

-- User 1 pays in by PayPal, and the outbox is polled.
abbrev pub paid_in : List Request
paid_in = post_confirmation (stamp 1) 1 (by_paypal 500 7) ∷ poll (env_of willing 1000) ∷ []

-- Then they send some of it to user 2, take some out, and ask PayPal for a payout, which the poll
-- hands over.
abbrev pub busy : List Request
busy =
    post_confirmation (stamp 1) 1 (by_paypal 500 7)
    ∷ poll (env_of willing 1000)
    ∷ post_transfer (stamp 2) 1 (to_two 120 8)
    ∷ post_withdrawal (stamp 3) 1 (money 30 9)
    ∷ post_payout (stamp 4) 1 (paypal_payout 50 10)
    ∷ poll (env_of willing 2000)
    ∷ []

-- The rows that `paid_in` leaves behind, and the ones that it starts from.
abbrev pub confirmed_in : Db
confirmed_in = run (post_confirmation (stamp 1) 1 (by_paypal 500 7) ∷ []) genesis

abbrev pub open_row : Transaction
open_row = confirmed_row (stamp 1) (by_paypal 500 7) 12

abbrev pub paid_row : Transaction
paid_row = settled_row 1401 (some "sale") open_row

pub confirmed_in-IsSound : IsSound confirmed_in
confirmed_in-IsSound =
    run-IsSound (post_confirmation (stamp 1) 1 (by_paypal 500 7) ∷ []) genesis genesis-IsSound

abbrev pub sold : ProviderResult
sold = record {
  success = true;
  requires_webhook = false;
  provider_ref = some "sale";
  raw_response = record { customer_id = some "customer"; body = "sale" };
}

abbrev pub declined : ProviderResult
declined = record {
  success = false;
  requires_webhook = false;
  provider_ref = none;
  raw_response = record { customer_id = none; body = "declined" };
}

pub open-Describes : Describes (context open_row 1) open_row
open-Describes = record {
  same_type = refl;
  same_amount = refl;
  same_sender = refl;
  same_receiver = refl;
}
