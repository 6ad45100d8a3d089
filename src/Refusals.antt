-- ===== src/Refusals.antt =====
-- What the services refuse: the guards of a withdrawal and a payout, and another user's transaction.
use payment_wallet_system.Prelude.{
  ◌≡◌, refl, ap, some, none, true, false, ◌⊎◌, inl, inr, arith, String, Option, Option-cases,
  Bool-cases, ==_iff, ◌==◌, ◌||◌,
}
use payment_wallet_system.Prelude.Int.{ltb_ℤ}
use payment_wallet_system.Db.Schema.{
  Uuid, User, Wallet, Transaction, stripe, paypal, internal, Provider, Currency, Decimal, Db,
}
use payment_wallet_system.Db.Tx.{Refuses, Tx, Result, ok, err}
use payment_wallet_system.Db.Writes.{find_user, Stamp, find_wallet, find_transaction, find_key}
use payment_wallet_system.Wallet.{find_by_user_id, is_active, same_currency}
use payment_wallet_system.Transaction.Service.{
  MoneyDto, TransactionResult, withdraw_tx, withdraw, get_transaction, to_result, lock_order,
  replay_or, names_wallet,
}
use payment_wallet_system.Payment.Repository.{truthy}
use payment_wallet_system.Payment.Service.{
  CreatePayoutDto, create_payout, create_payout_tx, connect_account_of, payment_replay_or,
  payout_payload,
}

names_it : (id : Uuid) (to : Option Uuid) → names_wallet id to ≡ true → to ≡ some id
names_it id (some b) h = ap some ((==_iff b id).0 h)
names_it id none h = ground arith

names_one :
    (id : Uuid) (from to : Option Uuid)
    → (names_wallet id from || names_wallet id to) ≡ true
    → (from ≡ some id) ⊎ (to ≡ some id)
names_one id (some a) to h = elim (Bool-cases (a == id)) [
  | inl same ↦ inl (ground arith)
  | inr differs ↦ inr (names_it id to (ground arith))
]
names_one id none to h = inr (names_it id to h)

-- `getTransaction` answers with the row that has the id, and only if the caller's wallet is its
-- sender or its receiver.
pub get_transaction-own :
    (user_id id : Uuid) (db db' : Db) (r : TransactionResult)
    → get_transaction user_id id db ≡ ok (r, db')
    → (w : Wallet) × (t : Transaction) × (find_by_user_id user_id db ≡ some w)
      × (find_transaction id db ≡ some t)
      × (r ≡ to_result t)
      × ((t.sender_wallet_id ≡ some w.id) ⊎ (t.receiver_wallet_id ≡ some w.id))
unfolding get_transaction
get_transaction-own user_id id db db' r e = elim (Option-cases (find_by_user_id user_id db)) [
  | inl missing ↦ ground arith
  | inr (w, has) ↦ elim (Option-cases (find_transaction id db)) [
    | inl missing ↦ ground arith
    | inr (t, found) ↦ (
      w,
      t,
      has,
      found,
      ground arith,
      names_one w.id t.sender_wallet_id t.receiver_wallet_id (ground arith),
    )
  ]
]

replay_or-Refuses :
    (key : Uuid) (m : Tx Transaction) (db : Db) (r : Result (Transaction × Db))
    → m db ≡ r
    → find_key key db ≡ none
    → ((t : Transaction) (db' : Db) → m db ≡ ok (t, db') → ⊥)
    → Refuses db (replay_or key m db)
replay_or-Refuses key m db (ok (t, db')) e unseen h = absurd (h t db' e)
replay_or-Refuses key m db (err x) e unseen h = (x, ground arith)

payment_replay_or-Refuses :
    (key : Uuid) (m : Tx Transaction) (db : Db) (r : Result (Transaction × Db))
    → m db ≡ r
    → find_key key db ≡ none
    → ((t : Transaction) (db' : Db) → m db ≡ ok (t, db') → ⊥)
    → Refuses db (payment_replay_or key m db)
payment_replay_or-Refuses key m db (ok (t, db')) e unseen h = absurd (h t db' e)
payment_replay_or-Refuses key m db (err x) e unseen h = (x, ground arith)

-- What keeps the wallet from paying: it is not active, it has another currency, or what is available
-- is less than the amount.
abbrev pub CannotPay : Wallet → Currency → Decimal → Type 0
CannotPay w currency amount =
    (is_active w.status ≡ false)
    ⊎ (same_currency w.currency currency ≡ false)
    ⊎ (ltb_ℤ w.available_balance amount ≡ true)

withdraw_tx-blocked :
    (s : Stamp) (u : Uuid) (dto : MoneyDto) (db db' : Db) (w : Wallet) (t : Transaction)
    → find_by_user_id u db ≡ some w
    → find_wallet w.id db ≡ some w
    → CannotPay w dto.currency dto.amount
    → withdraw_tx s u dto db ≡ ok (t, db')
    → ⊥
unfolding withdraw_tx
withdraw_tx-blocked s u dto db db' w t has found cannot e = elim cannot [
  | inl closed ↦ ground arith
  | inr (inl other) ↦ ground arith
  | inr (inr poor) ↦ ground arith
]

create_payout_tx-blocked :
    (s : Stamp) (u : Uuid) (dto : CreatePayoutDto) (db db' : Db) (w : Wallet) (t : Transaction)
    → find_by_user_id u db ≡ some w
    → find_wallet w.id db ≡ some w
    → CannotPay w dto.currency dto.amount
    → create_payout_tx s u dto db ≡ ok (t, db')
    → ⊥
unfolding create_payout_tx
create_payout_tx-blocked s u dto db db' w t has found cannot e = elim cannot [
  | inl closed ↦ ground arith
  | inr (inl other) ↦ ground arith
  | inr (inr poor) ↦ ground arith
]

-- A wallet that is not active, that has another currency, or whose available balance is less than
-- the amount pays nothing: under a key that is not yet taken, both a withdrawal and a payout from it
-- throw and leave the database as it was.
pub CannotPay-Refuses :
    (s : Stamp) (u : Uuid) (dto : MoneyDto) (payout : CreatePayoutDto) (db : Db) (w : Wallet)
    → find_by_user_id u db ≡ some w
    → find_wallet w.id db ≡ some w
    → find_key dto.idempotency_key db ≡ none
    → find_key payout.idempotency_key db ≡ none
    → CannotPay w dto.currency dto.amount
    → CannotPay w payout.currency payout.amount
    → Refuses db (withdraw s u dto db) × Refuses db (create_payout s u payout db)
unfolding withdraw create_payout
CannotPay-Refuses s u dto payout db w has found new new' cannot cannot' = (
  replay_or-Refuses dto.idempotency_key (withdraw_tx s u dto) db _ refl new
      λ t db' e. withdraw_tx-blocked s u dto db db' w t has found cannot e,
  payment_replay_or-Refuses payout.idempotency_key (create_payout_tx s u payout) db _ refl new'
      λ t db' e. create_payout_tx-blocked s u payout db db' w t has found cannot' e,
)

abbrev pub paypal_email_of : Option User → Option String
paypal_email_of none = none
paypal_email_of (some u) = truthy u.paypal_email

-- The user has no destination with the provider of the payout.
abbrev pub NoDestination : Provider → Option User → Type 0
NoDestination stripe user = connect_account_of user ≡ none
NoDestination paypal user = paypal_email_of user ≡ none
NoDestination internal user = ⊥

nowhere :
    (s : Stamp) (u : Uuid) (dto : CreatePayoutDto) (db db' : Db) (t : Transaction) (p : Provider)
    → dto.provider ≡ p
    → NoDestination p (find_user u db)
    → create_payout_tx s u dto db ≡ ok (t, db')
    → ⊥
unfolding create_payout_tx payout_payload
nowhere s u dto db db' t stripe k h e = elim (Option-cases (find_by_user_id u db)) [
  | inl missing ↦ ground arith
  | inr (w, found) ↦ elim (Option-cases (find_wallet w.id db)) [
    | inl missing ↦ ground arith
    | inr (row, got) ↦ ground arith
  ]
]
nowhere s u dto db db' t paypal k h e = elim (Option-cases (find_by_user_id u db)) [
  | inl missing ↦ ground arith
  | inr (w, found) ↦ elim (Option-cases (find_wallet w.id db)) [
    | inl missing ↦ ground arith
    | inr (row, got) ↦ ground arith
  ]
]
nowhere s u dto db db' t internal k h e = h

-- A payout of a user without a connected account at Stripe, or without a PayPal address, throws and
-- leaves the database as it was, the balance that was set aside for it included. Its key is not yet
-- taken.
pub NoDestination-Refuses :
    (s : Stamp) (u : Uuid) (dto : CreatePayoutDto) (db : Db)
    → find_key dto.idempotency_key db ≡ none
    → NoDestination dto.provider (find_user u db)
    → Refuses db (create_payout s u dto db)
unfolding create_payout
NoDestination-Refuses s u dto db new h =
    payment_replay_or-Refuses dto.idempotency_key (create_payout_tx s u dto) db _ refl new
      λ t db' e. nowhere s u dto db db' t dto.provider refl h e

-- Two transfers between the same wallets, in whichever directions, lock the same row first.
pub lock_order_comm : (a b : Uuid) → lock_order a b ≡ lock_order b a
unfolding lock_order
lock_order_comm a b = ground arith
