-- ===== src/Accounts/Service.antt =====
-- src/modules/user/users.service.ts. The audit log is not modelled.
use payment_wallet_system.Prelude.{
  ℕ, ◌+◌, ◌-◌, ◌/◌, String, Option, none, some, Bool, true, false, not, ◌&&◌, List, is_none, ◌==◌,
}
use payment_wallet_system.Prelude.Texts.{trim}
use payment_wallet_system.Db.Schema.{Uuid, Role, AccountStatus, closed, User, Wallet, Db}
use payment_wallet_system.Db.Tx.{
  bad_request, unauthorized, forbidden, not_found, user_not_found, nothing_to_update, own_account,
  wrong_password, same_password, with_transaction,
}
use payment_wallet_system.Db.Writes.{find_user}
use payment_wallet_system.Wallet.{find_by_user_id}
use payment_wallet_system.Payment.Repository.{truthy}
use payment_wallet_system.Accounts.Repository.{
  UserFilters, update_profile, update_password_and_revoke_sessions, update_status_or_role,
  close_account_tx, find_all,
}
use payment_wallet_system.Auth.Outside.{Outside}
use payment_wallet_system.Auth.Calls.{Call, ◌>>=◌, ◌>>◌, give, give_or, check, read_db, on_db}
use payment_wallet_system.Auth.Tokens.{Config, Draw}
use payment_wallet_system.Auth.Sessions.{revoke_access_token}

pub record UpdateProfileDto : Type 0 where
  pub name : Option String
  pub phone : Option String

pub record ChangePasswordDto : Type 0 where
  pub current_password : String
  pub new_password : String

pub record AdminUpdateUserDto : Type 0 where
  pub status : Option AccountStatus
  pub role : Option Role

-- A user's row with the row of the wallet.
pub record UserWithWallet : Type 0 where
  pub user : User
  pub wallet : Option Wallet

abbrev pub with_wallet : Db → Option User → Option UserWithWallet
with_wallet db none = none
with_wallet db (some u) = some (record { user = u; wallet = find_by_user_id u.id db })

-- `findById`
abbrev pub find_with_wallet : Uuid → Db → Option UserWithWallet
find_with_wallet id db = with_wallet db (find_user id db)

pub record PaginatedUsersResult : Type 0 where
  pub users : List User
  pub total : ℕ
  pub page : ℕ
  pub limit : ℕ
  pub total_pages : ℕ

abbrev pub trimmed : Option String → Option String
trimmed none = none
trimmed (some s) = some (trim s)

abbrev pub is_closed : Option AccountStatus → Bool
is_closed none = false
is_closed (some closed) = true
is_closed (some _) = false

module _ (o : Outside) where
  unfoldable pub get_me : Uuid → Call o.Redis UserWithWallet
  get_me user_id = do give_or (not_found user_not_found) (← read_db (find_with_wallet user_id))

  unfoldable pub get_user_by_id : Uuid → Call o.Redis UserWithWallet
  get_user_by_id id = do give_or (not_found user_not_found) (← read_db (find_with_wallet id))

  -- An empty text counts as not given.
  unfoldable pub change_profile : Uuid → UpdateProfileDto → Call o.Redis User
  unfolding update_profile
  change_profile user_id dto = do
    check (not (is_none (truthy dto.name) && is_none (truthy dto.phone)))
        (bad_request nothing_to_update)
    on_db (
        update_profile user_id
          (record { name = truthy dto.name; phone = trimmed (truthy dto.phone) }))

  unfoldable pub change_password :
      Config → Draw → Uuid → String → ChangePasswordDto → Call o.Redis (Unit {0})
  unfolding update_password_and_revoke_sessions revoke_access_token
  change_password cfg d user_id jti dto = do
    user ← give_or (not_found user_not_found) (← read_db (find_user user_id))
    check (o.argon_verify user.password dto.current_password) (unauthorized wrong_password)
    check (not (o.argon_verify user.password dto.new_password)) (bad_request same_password)
    let hashed = o.argon_hash d.salt dto.new_password
    on_db (with_transaction (update_password_and_revoke_sessions user_id hashed d.now))
    revoke_access_token o cfg jti d.now

  unfoldable pub close_account : Config → Draw → Db → Uuid → String → Call o.Redis (Unit {0})
  unfolding close_account_tx revoke_access_token
  close_account cfg d seen user_id jti = do
    give_or (not_found user_not_found) (← read_db (find_user user_id))
    on_db (with_transaction (close_account_tx seen user_id d.now))
    revoke_access_token o cfg jti d.now

  unfoldable pub list_users : UserFilters → ℕ → ℕ → Call o.Redis PaginatedUsersResult
  unfolding find_all
  list_users f page limit = do
    found ← read_db (find_all f page limit)
    give (record {
      users = found.0;
      total = found.1;
      page = page;
      limit = limit;
      total_pages = (found.1 + (limit - 1)) / limit;
    })

  abbrev write_status : Draw → Db → Uuid → AdminUpdateUserDto → Bool → Call o.Redis (Unit {0})
  write_status d seen id dto true = on_db (with_transaction (close_account_tx seen id d.now))
  write_status d seen id dto false = do
    on_db (with_transaction (update_status_or_role id dto.status dto.role))
    give tt

  -- The read behind the write finds the row, since the write would have thrown.
  unfoldable pub update_user_status :
      Draw → Db → Uuid → Uuid → AdminUpdateUserDto → Call o.Redis (Option UserWithWallet)
  unfolding close_account_tx update_status_or_role
  update_user_status d seen requester_id target_id dto = do
    check (not (is_none dto.status && is_none dto.role)) (bad_request nothing_to_update)
    check (not (requester_id == target_id)) (forbidden own_account)
    give_or (not_found user_not_found) (← read_db (find_user target_id))
    write_status d seen target_id dto (is_closed dto.status)
    read_db (find_with_wallet target_id)
