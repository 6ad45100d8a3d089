-- ===== src/Auth/Service.antt =====
-- src/modules/auth/auth.service.ts. The audit log and log lines are not modelled. `Outside` holds what
-- the service calls, and `Draw` what one call reads from the clock and draws at random.
use payment_wallet_system.Prelude.{ℕ, String, Option, none, some, ◌==◌}
use payment_wallet_system.Prelude.Texts.{trim}
use payment_wallet_system.Db.Schema.{Uuid, Time, User, RefreshToken}
use payment_wallet_system.Db.Tx.{
  unauthorized, invalid_credentials, account_not_active, invalid_token, security_breach, user_gone,
  identity_mismatch,
}
use payment_wallet_system.Db.Writes.{find_user}
use payment_wallet_system.Wallet.{is_active}
use payment_wallet_system.Session.{
  TokenStatus, unknown, expired, current, in_grace, reused, find_token, status_of,
}
use payment_wallet_system.Accounts.Repository.{
  CreateUserInput, AccountStamp, find_by_email, create_user_with_wallet,
}
use payment_wallet_system.Auth.Outside.{Outside, TokenPair}
use payment_wallet_system.Auth.Calls.{
  Call, ◌>>=◌, ◌>>◌, give, give_or, raise, settled_call, check, read_db, on_db,
}
use payment_wallet_system.Auth.Tokens.{
  Config, Draw, hash_token, generate_token_pair, get_refresh_expiry,
}
use payment_wallet_system.Auth.Sessions.{
  grace_period, new_token, persist_refresh_token, rotate_token, get_rotation_cache,
  clear_rotation_cache, revoke_token, revoke_all_tokens, revoke_access_token,
}

pub record RegisterDto : Type 0 where
  pub name : String
  pub email : String
  pub phone : String
  pub password : String

pub record LoginDto : Type 0 where
  pub email : String
  pub password : String

abbrev pub account_stamp : Draw → AccountStamp
account_stamp d = record { now = d.now; user_id = d.user_id; wallet_id = d.wallet_id }

abbrev pub password_of : String → Option User → String
password_of dummy none = dummy
password_of dummy (some u) = u.password

-- The session's row, as `findRefreshTokenWithGrace` finds it.
abbrev pub session_status : Time → Option RefreshToken → TokenStatus
session_status now found = status_of grace_period now found

module _ (o : Outside) where
  unfoldable pub normalize_email : String → String
  unfolding trim
  normalize_email email = trim (o.lower email)

  -- The new user's row, with a phone that is trimmed and a password that is hashed.
  abbrev pub registered : Draw → RegisterDto → CreateUserInput
  registered d dto = record {
    name = dto.name;
    email = dto.email;
    phone = trim dto.phone;
    password = o.argon_hash d.salt dto.password;
  }

  -- `generateTokenPair` and `persistRefreshToken`, as registration and login call them.
  unfoldable pub open_session : Config → Draw → User → Call o.Redis TokenPair
  unfolding generate_token_pair persist_refresh_token
  open_session cfg d user = do
    let tokens = generate_token_pair o cfg d user.id user.email user.role
    persist_refresh_token o cfg d user.id tokens.refresh_token
    give tokens

  unfoldable pub register : Config → Draw → RegisterDto → Call o.Redis TokenPair
  unfolding open_session create_user_with_wallet
  register cfg d dto = do
    user ← on_db (create_user_with_wallet (account_stamp d) (registered d dto))
    open_session cfg d user

  unfoldable pub login : Config → Draw → LoginDto → Call o.Redis TokenPair
  unfolding open_session normalize_email
  login cfg d dto = do
    found ← read_db (find_by_email (normalize_email dto.email))
    let password_match = o.argon_verify (password_of cfg.dummy_hash found) dto.password
    user ← give_or (unauthorized invalid_credentials) found
    check password_match (unauthorized invalid_credentials)
    check (is_active user.status) (unauthorized account_not_active)
    open_session cfg d user

  abbrev pub cached_or_refuse : ℕ → Option TokenPair → Call o.Redis TokenPair
  cached_or_refuse hash (some tokens) = give tokens
  cached_or_refuse hash none = do clear_rotation_cache o hash; raise (unauthorized invalid_token)

  -- The session is current: its user must exist and be active.
  unfoldable pub refresh_current : Config → Draw → ℕ → RefreshToken → Call o.Redis TokenPair
  unfolding generate_token_pair rotate_token
  refresh_current cfg d hash session = do
    user ← give_or (unauthorized user_gone) (← read_db (find_user session.user_id))
    check (is_active user.status) (unauthorized account_not_active)
    let tokens = generate_token_pair o cfg d user.id user.email user.role
    new_hash ← settled_call (hash_token o cfg tokens.refresh_token)
    expires_at ← settled_call (get_refresh_expiry cfg d.now)
    rotate_token o cfg d hash (new_token d user.id new_hash expires_at) tokens
    give tokens

  unfoldable pub refresh_session :
      Config → Draw → ℕ → Option RefreshToken → TokenStatus → Call o.Redis TokenPair
  unfolding refresh_current revoke_all_tokens get_rotation_cache clear_rotation_cache
  refresh_session cfg d hash none status = raise (unauthorized invalid_token)
  refresh_session cfg d hash (some session) unknown = raise (unauthorized invalid_token)
  refresh_session cfg d hash (some session) expired = raise (unauthorized invalid_token)
  refresh_session cfg d hash (some session) reused = do
    revoke_all_tokens o session.user_id d.now
    clear_rotation_cache o hash
    raise (unauthorized security_breach)
  refresh_session cfg d hash (some session) in_grace = do
    cached ← get_rotation_cache o cfg d.now hash
    cached_or_refuse hash cached
  refresh_session cfg d hash (some session) current = refresh_current cfg d hash session

  unfoldable pub refresh : Config → Draw → String → Call o.Redis TokenPair
  unfolding refresh_session hash_token
  refresh cfg d raw = do
    hash ← settled_call (hash_token o cfg raw)
    session ← read_db (λ db. find_token hash db.refresh_tokens)
    refresh_session cfg d hash session (session_status d.now session)

  abbrev revoke_if_current : Draw → ℕ → TokenStatus → Call o.Redis (Unit {0})
  revoke_if_current d hash current = revoke_token o hash d.now
  revoke_if_current d hash _ = give tt

  unfoldable pub logout_own :
      Config → Draw → ℕ → Uuid → String → RefreshToken → TokenStatus → Call o.Redis (Unit {0})
  unfolding clear_rotation_cache revoke_access_token revoke_token
  logout_own cfg d hash user_id jti session status = do
    check (session.user_id == user_id) (unauthorized identity_mismatch)
    clear_rotation_cache o hash
    revoke_access_token o cfg jti d.now
    revoke_if_current d hash status

  unfoldable pub logout_session :
      Config
      → Draw
      → ℕ
      → Uuid
      → String
      → Option RefreshToken
      → TokenStatus
      → Call o.Redis (Unit {0})
  unfolding logout_own revoke_all_tokens
  logout_session cfg d hash user_id jti none status = give tt
  logout_session cfg d hash user_id jti (some session) reused =
      revoke_all_tokens o session.user_id d.now
  logout_session cfg d hash user_id jti (some session) status =
      logout_own cfg d hash user_id jti session status

  unfoldable pub logout : Config → Draw → String → Uuid → String → Call o.Redis (Unit {0})
  unfolding logout_session hash_token
  logout cfg d raw user_id jti = do
    hash ← settled_call (hash_token o cfg raw)
    session ← read_db (λ db. find_token hash db.refresh_tokens)
    logout_session cfg d hash user_id jti session (session_status d.now session)

  unfoldable pub logout_all : Config → Draw → Uuid → String → Call o.Redis (Unit {0})
  unfolding revoke_all_tokens revoke_access_token
  logout_all cfg d user_id jti = do
    revoke_all_tokens o user_id d.now
    revoke_access_token o cfg jti d.now
