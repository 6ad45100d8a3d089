-- ===== src/Accounts/Repository.antt =====
-- src/modules/user/users.repository.ts, and the users of src/modules/auth/auth.repository.ts. The
-- reason of a broken unique column names the column. Of the users that were
-- created at one moment the later row is listed first. A page is counted from one.
use text.Mathlib.Text.{◌==◌ as str_eq}
use payment_wallet_system.Prelude.{
  ℕ, ◌-◌, ◌*◌, String, Option, none, some, Bool, true, false, not, ◌&&◌, ◌||◌, List, [], ◌∷◌, ◌++◌,
  ltb, is_none, ◌==◌, if◌then◌else◌,
}
use payment_wallet_system.Prelude.Int.{pos, ltb_ℤ}
use payment_wallet_system.Prelude.Lists.{length, take, drop}
use payment_wallet_system.Db.Schema.{
  Uuid, Time, Role, plain_user, admin, AccountStatus, active, frozen, suspended, closed, usd, User,
  Wallet, Db,
}
use payment_wallet_system.Db.Table.{replace}
use payment_wallet_system.Db.Query.{find_first, where_rows, order_by}
use payment_wallet_system.Db.Tx.{
  Tx, Action, Result, ok, err, Exception, database_error, conflict, unique_violation,
  record_not_found, email_in_use, phone_in_use, funds_remain, pure, gets, or_throw, modify, ensure,
  with_transaction, ◌>>=◌, ◌>>◌,
}
use payment_wallet_system.Db.Writes.{find_user, find_wallet}
use payment_wallet_system.Wallet.{find_by_user_id}
use payment_wallet_system.Session.{revoke_all_user_tokens}

unfoldable pub find_by_email : String → Db → Option User
unfolding find_first
find_by_email email db = find_first (λ u. str_eq u.email email) db.users

unfoldable pub check_phone_taken : String → Db → Option User
unfolding find_first
check_phone_taken phone db = find_first (λ u. str_eq u.phone phone) db.users

unfoldable pub check_email_or_phone_taken : String → String → Db → Option User
unfolding find_first
check_email_or_phone_taken email phone db =
    find_first (λ u. str_eq u.email email || str_eq u.phone phone) db.users

pub record CreateUserInput : Type 0 where
  pub name : String
  pub email : String
  pub phone : String
  pub password : String

-- What the database generates for a new account.
pub record AccountStamp : Type 0 where
  pub now : Time
  pub user_id : Uuid
  pub wallet_id : Uuid

-- The defaults of the schema.
abbrev pub new_user : AccountStamp → CreateUserInput → User
new_user s d = record {
  id = s.user_id;
  name = d.name;
  email = d.email;
  phone = d.phone;
  password = d.password;
  role = plain_user;
  status = active;
  created_at = s.now;
  stripe_connect_account_id = none;
  paypal_email = none;
  braintree_customer_id = none;
}

abbrev pub new_wallet : AccountStamp → Wallet
new_wallet s = record {
  id = s.wallet_id;
  user_id = s.user_id;
  currency = usd;
  status = active;
  available_balance = pos 0;
  locked_balance = pos 0;
  pending_balance = pos 0;
  created_at = s.now;
}

unfoldable pub create_user_tx : AccountStamp → CreateUserInput → Tx User
create_user_tx s d = do
  ensure (is_none (← gets (find_user s.user_id))) (database_error unique_violation)
  ensure (is_none (← gets (find_by_email d.email))) (database_error email_in_use)
  ensure (is_none (← gets (check_phone_taken d.phone))) (database_error phone_in_use)
  modify (λ db. record db { users = db.users ++ new_user s d ∷ [] })
  ensure (is_none (← gets (find_wallet s.wallet_id))) (database_error unique_violation)
  ensure (is_none (← gets (find_by_user_id s.user_id))) (database_error unique_violation)
  modify (λ db. record db { wallets = db.wallets ++ new_wallet s ∷ [] })
  pure (new_user s d)

-- The `catch` of `createUserWithWallet`: a broken unique column that is not the phone's is taken for
-- the email's.
abbrev pub account_conflict : Exception → Exception
account_conflict (database_error phone_in_use) = conflict phone_in_use
account_conflict (database_error email_in_use) = conflict email_in_use
account_conflict (database_error unique_violation) = conflict email_in_use
account_conflict e = e

abbrev pub catch_with : {A : Type 0} → (Exception → Exception) → Result A × Db → Result A × Db
catch_with f (ok a, db) = (ok a, db)
catch_with f (err e, db) = (err (f e), db)

unfoldable pub create_user_with_wallet : AccountStamp → CreateUserInput → Action User
unfolding create_user_tx
create_user_with_wallet s d db =
    catch_with account_conflict (with_transaction (create_user_tx s d) db)

-- `user.update({ where: { id }, data })` on columns that are not unique.
unfoldable pub update_user : Uuid → (User → User) → Tx User
update_user id change = do
  u ← or_throw (← gets (find_user id)) (database_error record_not_found)
  let u' = change u
  modify (λ db. record db { users = replace (λ v. v.id) id u' db.users })
  pure u'

-- Another user has the phone.
unfoldable pub phone_of_other : Uuid → String → List User → Bool
phone_of_other id phone [] = false
phone_of_other id phone (u ∷ us) =
    if not (u.id == id) && str_eq u.phone phone then true else phone_of_other id phone us

-- A phone that is written must be no one else's.
abbrev pub phone_clash : Uuid → Option String → List User → Bool
phone_clash id none us = false
phone_clash id (some phone) us = phone_of_other id phone us

abbrev pub or_else : {A : Type 0} → Option A → A → A
or_else none a = a
or_else (some b) a = b

pub record ProfilePatch : Type 0 where
  pub name : Option String
  pub phone : Option String

unfoldable pub update_profile_tx : Uuid → ProfilePatch → Tx User
unfolding update_user
update_profile_tx id patch = do
  ensure (not (← gets (λ db. phone_clash id patch.phone db.users))) (database_error phone_in_use)
  update_user id
      λ v. record v { name = or_else patch.name v.name; phone = or_else patch.phone v.phone }

abbrev pub profile_conflict : Exception → Exception
profile_conflict (database_error phone_in_use) = conflict phone_in_use
profile_conflict e = e

unfoldable pub update_profile : Uuid → ProfilePatch → Action User
unfolding update_profile_tx
update_profile id patch db =
    catch_with profile_conflict (with_transaction (update_profile_tx id patch) db)

unfoldable pub revoke_sessions : Uuid → Time → Tx (Unit {0})
revoke_sessions id now =
    modify (λ db. record db { refresh_tokens = revoke_all_user_tokens id now db.refresh_tokens })

unfoldable pub update_password_and_revoke_sessions : Uuid → String → Time → Tx (Unit {0})
unfolding update_user revoke_sessions
update_password_and_revoke_sessions id hashed now = do
  update_user id (λ u. record u { password = hashed })
  revoke_sessions id now

unfoldable pub update_status_or_role : Uuid → Option AccountStatus → Option Role → Tx User
unfolding update_user
update_status_or_role id status role =
    update_user id λ u. record u { status = or_else status u.status; role = or_else role u.role }

abbrev pub has_balance : Option Wallet → Bool
has_balance none = false
has_balance (some w) =
    ltb_ℤ (pos 0) w.available_balance
    || ltb_ℤ (pos 0) w.locked_balance
    || ltb_ℤ (pos 0) w.pending_balance

-- `closeAccount`. The wallet is read without a lock and at the default isolation: other transactions
-- may commit between this read, of the database `seen`, and the writes.
unfoldable pub close_account_tx : Db → Uuid → Time → Tx (Unit {0})
unfolding update_user revoke_sessions
close_account_tx seen user_id now = do
  ensure (not (has_balance (find_by_user_id user_id seen))) (conflict funds_remain)
  update_user user_id (λ u. record u { status = closed })
  revoke_sessions user_id now

abbrev pub same_status : AccountStatus → AccountStatus → Bool
same_status active active = true
same_status frozen frozen = true
same_status suspended suspended = true
same_status closed closed = true
same_status _ _ = false

abbrev pub same_role : Role → Role → Bool
same_role plain_user plain_user = true
same_role admin admin = true
same_role _ _ = false

pub record UserFilters : Type 0 where
  pub status : Option AccountStatus
  pub role : Option Role

abbrev pub passes : {A : Type 0} → (A → A → Bool) → Option A → A → Bool
passes same none a = true
passes same (some b) a = same a b

abbrev pub selects_user : UserFilters → User → Bool
selects_user f u = passes same_status f.status u.status && passes same_role f.role u.role

-- `findAll`: the page, and the number of all users that pass.
unfoldable pub find_all : UserFilters → ℕ → ℕ → Db → List User × ℕ
unfolding where_rows order_by
find_all f page limit db =
    let rows = where_rows (selects_user f) db.users in
    let sorted = order_by (λ a b. ltb b.created_at a.created_at) rows in
    (take limit (drop ((page - 1) * limit) sorted), length rows)
