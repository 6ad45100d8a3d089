-- ===== src/Connect/Answering.antt =====
-- src/modules/stripe-connect: what the webhook answers, and what it changes.
use text.Mathlib.Text.{◌==◌ as str_eq}
use payment_wallet_system.Prelude.{String, ◌≡◌, Option, none, some, Bool, true}
use payment_wallet_system.Db.Schema.{User, Db}
use payment_wallet_system.Db.Table.{replace}
use payment_wallet_system.Db.Tx.{
  Result, ok, err, unauthorized, webhook_not_configured, no_signature, no_raw_body,
  invalid_signature,
}
use payment_wallet_system.Db.Writes.{find_user}
use payment_wallet_system.Payment.Repository.{truthy}
use payment_wallet_system.Auth.Calls.{Server}
use payment_wallet_system.Connect.Service.{find_by_connect_account_id}
use payment_wallet_system.Connect.Webhook.{StripeEvent}

-- The event withdraws the account of `u`, whose row is `v`.
pub record Withdraws (event : StripeEvent) (db : Db) (u v : User) : Type 0 where
  pub of_type : event.type ≡ "account.application.deauthorized"
  pub account : String
  pub named : truthy event.account ≡ some account
  pub held : find_by_connect_account_id account db ≡ some u
  pub row : find_user u.id db ≡ some v

-- The database after an event: the row of a user whose account it withdraws is without it, and nothing
-- else has changed.
pub data After (event : StripeEvent) (db : Db) : Db → Type 0 where
  unchanged : ((u v : User) → ¬ Withdraws event db u v) → After event db db
  withdrawn :
      (u v : User)
      → Withdraws event db u v
      → After event db (record db {
        users = replace (λ x. x.id) u.id (record v { stripe_connect_account_id = none }) db.users;
      })

-- A state whose database follows the event, and which is otherwise as it was.
abbrev Follows : {R : Type 0} → StripeEvent → Server R → Server R → Type 0
Follows event s t = (t ≡ record s { db = t.db }) × After event s.db t.db

-- A request that Stripe has signed: the webhook is configured, and the body with its signature stands
-- for the event.
pub record Signs (construct_event : String → String → String → Option StripeEvent)
    (secret raw_body signature : Option String) (event : StripeEvent) : Type 0 where
  pub key : String
  pub signed : String
  pub body : String
  pub has_key : truthy secret ≡ some key
  pub has_signature : truthy signature ≡ some signed
  pub has_body : raw_body ≡ some body
  pub checked : construct_event body signed key ≡ some event

-- What the webhook answers to a request, and what it leaves: to one that Stripe has signed, that it was
-- received, with the database as it is after the event; any other is not authorized, for what it
-- lacks first, and changes nothing.
pub data Answers {R : Type 0} (construct_event : String → String → String → Option StripeEvent)
    (secret raw_body signature : Option String) (s : Server R)
    : Result Bool × Server R → Type 0 where
  received :
      (event : StripeEvent) (db : Db)
      → Signs construct_event secret raw_body signature event
      → After event s.db db
      → Answers construct_event secret raw_body signature s (ok true, record s { db = db })
  unset :
      truthy secret ≡ none
      → Answers construct_event secret raw_body signature s
          (err (unauthorized webhook_not_configured), s)
  unsigned :
      (key : String)
      → truthy secret ≡ some key
      → truthy signature ≡ none
      → Answers construct_event secret raw_body signature s (err (unauthorized no_signature), s)
  empty :
      (key signed : String)
      → truthy secret ≡ some key
      → truthy signature ≡ some signed
      → raw_body ≡ none
      → Answers construct_event secret raw_body signature s (err (unauthorized no_raw_body), s)
  forged :
      (key signed body : String)
      → truthy secret ≡ some key
      → truthy signature ≡ some signed
      → raw_body ≡ some body
      → construct_event body signed key ≡ none
      → Answers construct_event secret raw_body signature s
          (err (unauthorized invalid_signature), s)
