-- ===== src/Access/Closing.antt =====
-- src/modules/user/users.service.ts: what closing an account leaves.
use payment_wallet_system.Prelude.{
  String, ◌≡◌, refl, sym, ap, ◌∙◌, inl, inr, some, Option-cases, Bool-cases, false, arith, ==_refl,
}
use payment_wallet_system.Prelude.Int.{pos, ◌≤ℤ◌}
use payment_wallet_system.Db.Schema.{Uuid, Time, User, Wallet, Db, closed}
use payment_wallet_system.Db.Table.{find_unique-replace, find_unique-column}
use payment_wallet_system.Db.Tx.{ok}
use payment_wallet_system.Db.Writes.{find_user, find_wallet}
use payment_wallet_system.Wallet.{find_by_user_id}
use payment_wallet_system.Books.Effects.{available, locked, pending}
use payment_wallet_system.Books.Soundness.{IsSound, IsSound-nonneg}
use payment_wallet_system.Session.{live_count, revoke_all_user_tokens}
use payment_wallet_system.Sessions.Revocation.{no_live_session}
use payment_wallet_system.Accounts.Repository.{
  has_balance, update_user, revoke_sessions, close_account_tx,
}
use payment_wallet_system.Accounts.Service.{close_account}
use payment_wallet_system.Auth.Outside.{Outside}
use payment_wallet_system.Auth.Calls.{Server, Answer-cases}
use payment_wallet_system.Auth.Tokens.{Config, Draw}
use payment_wallet_system.Auth.Sessions.{revoke_access_token, deny}

-- The state that closing the account of a user leaves. The wallet's row was `w` when the closing read
-- it, and is whatever it is when the closing writes.
pub record IsClosed (o : Outside) (user_id : Uuid) (w : Wallet) (s s' : Server o.Redis)
    : Type 0 where
  pub user : User
  pub is_there : find_user user_id s'.db ≡ some user
  pub is_closed : user.status ≡ closed
  pub none_available : w.available_balance ≡ pos 0
  pub none_locked : w.locked_balance ≡ pos 0
  pub none_pending : w.pending_balance ≡ pos 0
  pub no_session : (later : Time) → live_count user_id later s'.db.refresh_tokens ≡ 0
  pub same_books :
      s'.db ≡ record s.db { users = s'.db.users; refresh_tokens = s'.db.refresh_tokens }

module _ (db : Db) (w : Wallet) (sound : IsSound db) (row : find_wallet w.id db ≡ some w) where
  nonneg_of :
      (pos 0 ≤ℤ w.available_balance) × (pos 0 ≤ℤ w.locked_balance) × (pos 0 ≤ℤ w.pending_balance)
  nonneg_of =
      let a = IsSound-nonneg db sound available w.id in
      let l = IsSound-nonneg db sound locked w.id in
      let p = IsSound-nonneg db sound pending w.id in ground arith

  empty_of :
      has_balance (some w) ≡ false
      → (w.available_balance ≡ pos 0) × (w.locked_balance ≡ pos 0) × (w.pending_balance ≡ pos 0)
  empty_of h = let n = nonneg_of in ground arith

closed_tx :
    (seen : Db) (user_id : Uuid) (now : Time) (u : User) (db db' : Db)
    → find_user user_id db ≡ some u
    → close_account_tx seen user_id now db ≡ ok (tt, db')
    → (has_balance (find_by_user_id user_id seen) ≡ false)
      × (find_user user_id db' ≡ some (record u { status = closed }))
      × (db'.refresh_tokens ≡ revoke_all_user_tokens user_id now db.refresh_tokens)
      × (db' ≡ record db { users = db'.users; refresh_tokens = db'.refresh_tokens })
unfolding close_account_tx update_user revoke_sessions
closed_tx seen user_id now u db db' f e =
    elim (Bool-cases (has_balance (find_by_user_id user_id seen))) [
      | inl holds ↦ ground arith
      | inr empty ↦
          let key = find_unique-column (λ v. v.id) user_id db.users u f in
          let there =
            find_unique-replace (λ v. v.id) user_id user_id (record u { status = closed }) u
              db.users key f in
          let same = ==_refl user_id in (empty, ground arith, ground arith, ground arith)
    ]

-- Closing an account that the code accepts leaves a closed user who has no live session at any time;
-- beyond the users and the refresh tokens, the database stays as it is. The wallet held nothing in any
-- pot when the closing read it. What was credited between this read and the writes, or is credited
-- later, is not excluded. The books were sound when the wallet was read.
pub close_account-IsClosed :
    (o : Outside) (cfg : Config) (d : Draw) (seen : Db) (user_id : Uuid) (jti : String) (w : Wallet)
    (s s' : Server o.Redis)
    → IsSound seen
    → find_by_user_id user_id seen ≡ some w
    → find_wallet w.id seen ≡ some w
    → close_account o cfg d seen user_id jti s ≡ (ok tt, s')
    → IsClosed o user_id w s s'
unfolding close_account revoke_access_token deny revoke_all_user_tokens
close_account-IsClosed o cfg d seen user_id jti w s s' sound has row e =
    elim (Option-cases (find_user user_id s.db)) [
      | inl missing ↦ ground arith
      | inr (u, found) ↦ elim (Answer-cases (close_account_tx seen user_id d.now s.db)) [
        | inr (x, refused) ↦ ground arith
        | inl ((one, db), closes) ↦
            let (empty, there, ended, same) = closed_tx seen user_id d.now u s.db db found closes in
            let left : s'.db ≡ db = ground arith in
            let (a, l, p) = empty_of seen w sound row (sym (ap has_balance has) ∙ empty) in
            record {
              user = record u { status = closed };
              is_there = rw left there;
              is_closed = refl;
              none_available = a;
              none_locked = l;
              none_pending = p;
              no_session = λ later.
                  rw (left, ended) (no_live_session user_id d.now later s.db.refresh_tokens);
              same_books = rw left same;
            }
      ]
    ]
