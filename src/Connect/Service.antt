-- ===== src/Connect/Service.antt =====
-- src/modules/stripe-connect/stripe-connect.service.ts and stripe-connect.repository.ts. A call of
-- Stripe that throws gives `none`.
use text.Mathlib.Text.{◌==◌ as str_eq}
use payment_wallet_system.Prelude.{
  String, Option, none, some, Bool, true, false, not, ◌&&◌, List, [], ◌∷◌, ◌==◌, if◌then◌else◌,
}
use payment_wallet_system.Db.Schema.{Uuid, User, Db}
use payment_wallet_system.Db.Query.{find_first}
use payment_wallet_system.Db.Tx
use payment_wallet_system.Db.Tx.{
  Tx, database_error, bad_gateway, bad_request, not_found, unique_violation, provider_unreachable,
  no_account_yet, user_not_found, with_transaction,
}
use payment_wallet_system.Db.Writes.{find_user}
use payment_wallet_system.Payment.Repository.{truthy}
use payment_wallet_system.Accounts.Repository.{update_user}
use payment_wallet_system.Auth.Calls.{Call, ◌>>=◌, ◌>>◌, give, give_or, read_db, on_db}

-- What Stripe says of an account.
pub record ConnectAccount : Type 0 where
  pub id : String
  pub charges_enabled : Bool
  pub payouts_enabled : Bool

pub record ConnectClient : Type 0 where
  pub create_account : String → Option String
  pub create_account_link : String → Option String
  pub retrieve_account : String → Option ConnectAccount

pub data OnboardingState : Type 0 where
  not_connected pending restricted complete : OnboardingState

pub record ConnectAccountStatus : Type 0 where
  pub account_id : Option String
  pub charges_enabled : Bool
  pub payouts_enabled : Bool
  pub onboarding_state : OnboardingState

pub record ConnectAccountResponse : Type 0 where
  pub account_id : String
  pub onboarding_url : String

abbrev pub holds_account : String → Option String → Bool
holds_account a none = false
holds_account a (some b) = str_eq b a

unfoldable pub find_by_connect_account_id : String → Db → Option User
unfolding find_first
find_by_connect_account_id a db =
    find_first (λ u. holds_account a u.stripe_connect_account_id) db.users

-- A user other than `id` has the account, whose column is unique.
unfoldable pub account_of_other : Uuid → String → List User → Bool
account_of_other id a [] = false
account_of_other id a (u ∷ us) =
    if not (u.id == id) && holds_account a u.stripe_connect_account_id
    then true
    else account_of_other id a us

unfoldable pub set_connect_account_id : Uuid → String → Tx User
unfolding account_of_other update_user
set_connect_account_id id a = Tx.◌>>=◌ (Tx.gets (λ db. account_of_other id a db.users)) λ taken.
    Tx.◌>>◌ (Tx.ensure (not taken) (database_error unique_violation))
      (update_user id (λ u. record u { stripe_connect_account_id = some a }))

unfoldable pub clear_connect_account_id : Uuid → Tx User
unfolding update_user
clear_connect_account_id id = update_user id (λ u. record u { stripe_connect_account_id = none })

unfoldable pub derive_onboarding_state : ConnectAccount → OnboardingState
derive_onboarding_state a =
    if a.charges_enabled && a.payouts_enabled
    then complete
    else if a.charges_enabled && not a.payouts_enabled
    then restricted
    else pending

abbrev pub status_of_account : ConnectAccount → ConnectAccountStatus
status_of_account a = record {
  account_id = some a.id;
  charges_enabled = a.charges_enabled;
  payouts_enabled = a.payouts_enabled;
  onboarding_state = derive_onboarding_state a;
}

abbrev pub not_connected_status : ConnectAccountStatus
not_connected_status = record {
  account_id = none;
  charges_enabled = false;
  payouts_enabled = false;
  onboarding_state = not_connected;
}

module _ {R : Type 0} (client : ConnectClient) where
  unfoldable pub create_and_persist_account : Uuid → String → Call R String
  unfolding set_connect_account_id
  create_and_persist_account user_id email = do
    account ← give_or (bad_gateway provider_unreachable) (client.create_account email)
    on_db (with_transaction (set_connect_account_id user_id account))
    give account

  unfoldable pub generate_onboarding_link : String → Call R String
  generate_onboarding_link a =
      give_or (bad_gateway provider_unreachable) (client.create_account_link a)

  -- The account that the user has, or a new one.
  abbrev pub account_for : Uuid → String → Option String → Call R String
  account_for user_id email none = create_and_persist_account user_id email
  account_for user_id email (some a) = give a

  unfoldable pub create_connect_account : Uuid → String → Call R ConnectAccountResponse
  unfolding create_and_persist_account generate_onboarding_link
  create_connect_account user_id email = do
    user ← give_or (not_found user_not_found) (← read_db (find_user user_id))
    a ← account_for user_id email (truthy user.stripe_connect_account_id)
    url ← generate_onboarding_link a
    give (record { account_id = a; onboarding_url = url })

  abbrev pub status_for : Option String → Call R ConnectAccountStatus
  status_for none = give not_connected_status
  status_for (some a) = do
    account ← give_or (bad_gateway provider_unreachable) (client.retrieve_account a)
    give (status_of_account account)

  unfoldable pub get_account_status : Uuid → Call R ConnectAccountStatus
  unfolding derive_onboarding_state
  get_account_status user_id = do
    user ← give_or (not_found user_not_found) (← read_db (find_user user_id))
    status_for (truthy user.stripe_connect_account_id)

  unfoldable pub refresh_onboarding_link : Uuid → Call R String
  unfolding generate_onboarding_link
  refresh_onboarding_link user_id = do
    user ← give_or (not_found user_not_found) (← read_db (find_user user_id))
    a ← give_or (bad_request no_account_yet) (truthy user.stripe_connect_account_id)
    generate_onboarding_link a
