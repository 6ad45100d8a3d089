-- ===== src/Db/Schema.antt =====
-- The enums and models of prisma/schema.prisma. A UUID and a point of time are only stored and
-- compared. A Decimal(18, 4) column is the integer of its ten-thousandths.
use payment_wallet_system.Prelude.{ℕ, String, Option, List}
use payment_wallet_system.Prelude.Int.{ℤ}

abbrev pub Uuid : Type 0
Uuid = ℕ

abbrev pub Time : Type 0
Time = ℕ

abbrev pub Decimal : Type 0
Decimal = ℤ

pub data AccountStatus : Type 0 where
  active frozen suspended closed : AccountStatus

pub data Currency : Type 0 where
  usd eur gbp : Currency

pub data TransactionType : Type 0 where
  deposit_type withdrawal_type transfer_type : TransactionType

pub data TransactionStatus : Type 0 where
  initiated authorized processing settled failed reversed : TransactionStatus

pub data EntryDirection : Type 0 where
  credit debit : EntryDirection

pub data Provider : Type 0 where
  stripe paypal internal : Provider

pub data Role : Type 0 where
  plain_user admin : Role

pub record User : Type 0 where
  pub id : Uuid
  pub name : String
  pub email : String
  pub phone : String
  pub password : String
  pub role : Role
  pub status : AccountStatus
  pub created_at : Time
  pub stripe_connect_account_id : Option String
  pub paypal_email : Option String
  pub braintree_customer_id : Option String

-- A hash is a number of its own, since it is only compared.
pub record RefreshToken : Type 0 where
  pub id : Uuid
  pub user_id : Uuid
  pub token_hash : ℕ
  pub expires_at : Time
  pub revoked_at : Option Time
  pub created_at : Time

pub record Wallet : Type 0 where
  pub id : Uuid
  pub user_id : Uuid
  pub currency : Currency
  pub status : AccountStatus
  pub available_balance : Decimal
  pub locked_balance : Decimal
  pub pending_balance : Decimal
  pub created_at : Time

pub record Transaction : Type 0 where
  pub id : Uuid
  pub idempotency_key : Uuid
  pub type : TransactionType
  pub status : TransactionStatus
  pub amount : Decimal
  pub currency : Currency
  pub description : Option String
  pub sender_wallet_id : Option Uuid
  pub receiver_wallet_id : Option Uuid
  pub provider : Option Provider
  pub provider_ref : Option String
  pub created_at : Time
  pub settled_at : Option Time

pub record LedgerEntry : Type 0 where
  pub id : Uuid
  pub wallet_id : Uuid
  pub transaction_id : Uuid
  pub direction : EntryDirection
  pub amount : Decimal
  pub currency : Currency
  pub balance_after : Decimal
  pub created_at : Time

-- What a provider answered, kept word for word; the code reads one field of it, `customerId`.
pub record RawResponse : Type 0 where
  pub customer_id : Option String
  pub body : String

pub record PaymentLog : Type 0 where
  pub id : Uuid
  pub transaction_id : Uuid
  pub provider : Provider
  pub provider_ref : Option String
  pub payload : RawResponse
  pub status : TransactionStatus
  pub created_at : Time

pub data EventType : Type 0 where
  deposit_initiated deposit_settled withdrawal_initiated transfer_settled : EventType

-- The JSON payload of an outbox event, with the keys that some writer of events sets.
pub record Payload : Type 0 where
  pub wallet_id : Option Uuid
  pub user_id : Option Uuid
  pub sender_wallet_id : Option Uuid
  pub sender_user_id : Option Uuid
  pub receiver_wallet_id : Option Uuid
  pub receiver_user_id : Option Uuid
  pub amount : Decimal
  pub currency : Currency
  pub payment_intent_id : Option String
  pub nonce : Option String
  pub customer_id : Option String
  pub stripe_connected_account_id : Option String
  pub paypal_email : Option String

pub record OutboxEvent : Type 0 where
  pub id : Uuid
  pub transaction_id : Uuid
  pub event_type : EventType
  pub payload : Payload
  pub delivered_at : Option Time
  pub retry_count : ℕ
  pub created_at : Time

pub record Db : Type 0 where
  pub users : List User
  pub wallets : List Wallet
  pub transactions : List Transaction
  pub ledger : List LedgerEntry
  pub payment_logs : List PaymentLog
  pub outbox : List OutboxEvent
  pub refresh_tokens : List RefreshToken
