-- ===== src/Access/Registration.antt =====
-- src/modules/auth/auth.service.ts: a user who registers can log in.
use payment_wallet_system.Prelude.{
  String, ◌≡◌, inl, inr, none, some, Option-cases, List, [], ◌∷◌, ◌++◌, arith,
}
use text.Mathlib.Text.{◌==◌ as str_eq}
use text.Mathlib.TextPositions.{eq_refl}
use payment_wallet_system.Db.Schema.{User, RefreshToken, Db, plain_user}
use payment_wallet_system.Db.Query.{find_first-snoc}
use payment_wallet_system.Db.Tx.{ok}
use payment_wallet_system.Db.Writes.{find_user, find_wallet}
use payment_wallet_system.Wallet.{find_by_user_id}
use payment_wallet_system.Accounts.Repository.{
  CreateUserInput, AccountStamp, new_user, find_by_email, check_phone_taken, create_user_tx,
  create_user_with_wallet,
}
use payment_wallet_system.Auth.Outside.{Outside, TokenPair}
use payment_wallet_system.Auth.Calls.{Server, Call-cases}
use payment_wallet_system.Auth.Tokens.{Config, Draw, generate_token_pair}
use payment_wallet_system.Auth.Sessions.{persist_refresh_token, create_session_tx}
use payment_wallet_system.Auth.Service.{
  RegisterDto, account_stamp, registered, normalize_email, open_session, register, login,
}
use payment_wallet_system.Access.Opening.{CanOpen, open_session_lem}

-- A user that is created was not there, and stands behind the others.
created_user :
    (s : AccountStamp) (c : CreateUserInput) (db db' : Db) (u : User)
    → create_user_with_wallet s c db ≡ (ok u, db')
    → (find_by_email c.email db ≡ none) × (u ≡ new_user s c) × (db'.users ≡ db.users ++ u ∷ [])
unfolding create_user_with_wallet create_user_tx
created_user s c db db' u e = elim (Option-cases (find_user s.user_id db)) [
  | inr (v, found) ↦ ground arith
  | inl new_id ↦ elim (Option-cases (find_by_email c.email db)) [
    | inr (v, found) ↦ ground arith
    | inl new_email ↦ elim (Option-cases (check_phone_taken c.phone db)) [
      | inr (v, found) ↦ ground arith
      | inl new_phone ↦ elim (Option-cases (find_wallet s.wallet_id db)) [
        | inr (w, found) ↦ ground arith
        | inl new_wallet_id ↦ elim (Option-cases (find_by_user_id s.user_id db)) [
          | inr (w, found) ↦ ground arith
          | inl no_wallet ↦ (new_email, ground arith, ground arith)
        ]
      ]
    ]
  ]
]

open_session_users :
    (o : Outside) (cfg : Config) (d : Draw) (u : User) (s s' : Server o.Redis) (pair : TokenPair)
    → open_session o cfg d u s ≡ (ok pair, s')
    → s'.db.users ≡ s.db.users
unfolding open_session persist_refresh_token create_session_tx
open_session_users o cfg d u s s' pair e = ground arith

registered_db :
    (o : Outside) (cfg : Config) (d : Draw) (dto : RegisterDto) (s s' : Server o.Redis)
    (pair : TokenPair)
    → register o cfg d dto s ≡ (ok pair, s')
    → (find_by_email dto.email s.db ≡ none)
      × (s'.db.users ≡ s.db.users ++ new_user (account_stamp d) (registered o d dto) ∷ [])
unfolding register
registered_db o cfg d dto s s' pair e =
    elim (Call-cases (create_user_with_wallet (account_stamp d) (registered o d dto) s.db)) [
      | inl (u, db, made) ↦
          let (free, same, users) =
            created_user (account_stamp d) (registered o d dto) s.db db u made in
          let kept = open_session_users o cfg d u (record s { db = db }) s' pair (ground arith) in
          (free, ground arith)
      | inr (x, db, failed) ↦ ground arith
    ]

module _ (o : Outside) (cfg : Config) (d : Draw) (dto : RegisterDto) where
  found_again :
      (s s' : Server o.Redis) (pair : TokenPair)
      → register o cfg d dto s ≡ (ok pair, s')
      → find_by_email dto.email s'.db ≡ some (new_user (account_stamp d) (registered o d dto))
  unfolding find_by_email
  found_again s s' pair e =
      let (free, users) = registered_db o cfg d dto s s' pair e in
      rw users
        (find_first-snoc (λ u. str_eq u.email dto.email) s.db.users _ free (eq_refl dto.email))

  -- Who has registered can log in with the password, under any spelling of the address that is
  -- brought to the one that was registered: if the draws of the login are fresh, then it answers
  -- a pair of tokens for the new user, and only the refresh tokens change.
  pub login-register :
      (d' : Draw) (spelling : String) (s s' : Server o.Redis) (pair : TokenPair)
      → register o cfg d dto s ≡ (ok pair, s')
      → normalize_email o spelling ≡ dto.email
      → CanOpen o cfg d' s'.db.refresh_tokens
      → (ts : List RefreshToken) × (login o cfg d'
            (record { email = spelling; password = dto.password })
            s'
          ≡ (
            ok (generate_token_pair o cfg d' d.user_id dto.email plain_user),
            record s' { db = record s'.db { refresh_tokens = ts } },
          ))
  unfolding login
  login-register d' spelling s s' pair e n c =
      let found = found_again s s' pair e in
      let verified = o.verify-hash d.salt dto.password in
      let (ts, opened) =
        open_session_lem o cfg d' (new_user (account_stamp d) (registered o d dto)) s' c in
      (ts, rw (n, found, verified) opened)
