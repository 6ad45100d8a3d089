-- ===== src/Access/Passwords.antt =====
-- src/modules/user/users.service.ts: a change of the password.
use payment_wallet_system.Prelude.{String, ◌≡◌, some, true, false}
use payment_wallet_system.Db.Schema.{Uuid, Time, User, Db}
use payment_wallet_system.Db.Writes.{find_user}
use payment_wallet_system.Session.{live_count}
use payment_wallet_system.Accounts.Service.{ChangePasswordDto}
use payment_wallet_system.Auth.Outside.{Outside}
use payment_wallet_system.Auth.Calls.{Server}

-- The user's row before and behind a change of the password, of which only the password differs.
pub record PasswordChanged (o : Outside) (user_id : Uuid) (dto : ChangePasswordDto)
    (s s' : Server o.Redis) : Type 0 where
  pub before : User
  pub password : String
  pub was : find_user user_id s.db ≡ some before
  pub is_now : find_user user_id s'.db ≡ some (record before { password = password })
  pub knew : o.argon_verify before.password dto.current_password ≡ true
  pub differs : o.argon_verify before.password dto.new_password ≡ false
  pub verifies : o.argon_verify password dto.new_password ≡ true
  pub no_session : (later : Time) → live_count user_id later s'.db.refresh_tokens ≡ 0
  pub same_rest : s'.db ≡ record s.db { users = s'.db.users; refresh_tokens = s'.db.refresh_tokens }
