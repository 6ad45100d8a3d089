-- ===== src/Db/Tx.antt =====
-- The callback of `prisma.$transaction`: it reads and writes the database and may throw. A throw
-- carries no database, so that whoever runs the callback goes on with the database from before.
use payment_wallet_system.Prelude.{◌≡◌, refl, ◌⊎◌, inl, inr, Bool, true, false, Option, none, some}
use payment_wallet_system.Db.Schema.{Db}

pub data Reason : Type 0 where
  wallet_not_found sender_wallet_not_found recipient_wallet_not_found : Reason
  transaction_not_found wallet_not_active currency_mismatch insufficient_balance : Reason
  transfer_to_yourself no_connect_account no_paypal_email unsupported_type no_adapter : Reason
  unique_violation record_not_found numeric_overflow missing_value : Reason
  user_not_found nothing_to_update own_account wrong_password same_password : Reason
  email_in_use phone_in_use funds_remain : Reason
  invalid_credentials account_not_active invalid_token security_breach : Reason
  user_gone identity_mismatch token_revoked store_unreachable bad_configuration : Reason
  no_account_yet provider_unreachable webhook_not_configured : Reason
  no_signature no_raw_body invalid_signature : Reason

-- The exception classes of the framework, and the errors of the database client.
pub data Exception : Type 0 where
  bad_request unauthorized forbidden not_found conflict unprocessable : Reason → Exception
  bad_gateway service_unavailable database_error plain_error : Reason → Exception

pub data Result (A : Type 0) : Type 0 where
  ok : A → Result A
  err : Exception → Result A

abbrev pub Tx : Type 0 → Type 0
Tx A = Db → Result (A × Db)

module _ {A : Type 0} where
  abbrev pub pure : A → Tx A
  pure a db = ok (a, db)

  abbrev pub throw : Exception → Tx A
  throw e db = err e

  abbrev pub gets : (Db → A) → Tx A
  gets f db = ok (f db, db)

  abbrev pub or_throw : Option A → Exception → Tx A
  or_throw none e = throw e
  or_throw (some a) e = pure a

abbrev pub modify : (Db → Db) → Tx (Unit {0})
modify f db = ok (tt, f db)

-- Goes on if the test holds.
abbrev pub ensure : Bool → Exception → Tx (Unit {0})
ensure true e db = ok (tt, db)
ensure false e db = err e

infixl 5 ◌>>=◌ ◌>>◌
abbrev pub ◌>>=◌ : {A B : Type 0} → Tx A → (A → Tx B) → Tx B
◌>>=◌ m f db = elim (m db) [ ok (a, db') ↦ f a db' | err e ↦ err e ]

abbrev pub ◌>>◌ : {A B : Type 0} → Tx A → Tx B → Tx B
m >> k = m >>= λ _. k

-- A call of a service: what it returns or throws, and the database that it leaves.
abbrev pub Action : Type 0 → Type 0
Action A = Db → Result A × Db

-- `withTransaction`: the callback's writes are kept together, or dropped together.
abbrev pub with_transaction : {A : Type 0} → Tx A → Action A
with_transaction m db = elim (m db) [ ok (a, db') ↦ (ok a, db') | err e ↦ (err e, db) ]

-- The call throws, and leaves the database as it was.
abbrev pub Refuses : {A : Type 0} → Db → Result A × Db → Type 0
Refuses db p = (e : Exception) × (p ≡ (err e, db))

pub Result-cases :
    (r : Result (Unit {0} × Db)) → ((db : Db) × (r ≡ ok (tt, db))) ⊎ ((e : Exception) × (r ≡ err e))
Result-cases (ok (tt, db)) = inl (db, refl)
Result-cases (err e) = inr (e, refl)
