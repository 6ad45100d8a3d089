-- ===== src/Tests/Sessions.antt =====
-- The refresh tokens of one user.
use payment_wallet_system.Prelude.{◌≡◌, refl, some, none, [], ◌∷◌, arith, List, ℕ, ◌≤◌, ◌+◌}
use payment_wallet_system.Db.Query.{insert_by, order_by, where_rows}
use payment_wallet_system.Db.Schema.{Time}
use payment_wallet_system.Db.Table.{find_unique, replace}
use payment_wallet_system.Prelude.Lists.{length}
use payment_wallet_system.Session.{
  RefreshToken, create_session_atomic, delete_all_expired_tokens, find_refresh_token_with_grace,
  live_count, revoked, rotate_refresh_token, revoke_all_user_tokens, revoke_where,
}
use payment_wallet_system.Sessions.Standing.{session_of, standing}
use payment_wallet_system.Sessions.Refinement.{
  open_session, renew_session, close_sessions, creates, rotates, revokes_all,
}
use payment_wallet_system.Sessions.Histories.{Lived, starts, steps, Run-Lived}
use payment_wallet_system.Sessions.Bound.{create_session_atomic-bound}
use payment_wallet_system.Sessions.Cleanup.{delete_all_expired_tokens_lem, is_kept}

abbrev token : ℕ → Time → RefreshToken
token n created = record {
  id = n;
  user_id = 1;
  token_hash = 100 + n;
  expires_at = 900000;
  revoked_at = none;
  created_at = created;
}

abbrev two : List RefreshToken
two = token 1 10 ∷ token 2 20 ∷ []

-- The third session of a user who may have two.
abbrev third : List RefreshToken
third = revoked 30 (token 1 10) ∷ token 2 20 ∷ token 3 30 ∷ []

create_session_atomic-bound_example : live_count 1 30 third ≤ 2
unfolding find_unique replace live_count create_session_atomic rotate_refresh_token
    find_refresh_token_with_grace where_rows order_by insert_by
create_session_atomic-bound_example =
    create_session_atomic-bound (token 3 30) 2 30 two third ((refl, tt), (tt, tt)) (omega arith)
      (omega arith) refl

delete_all_expired_tokens_lem_example :
    (total : ℕ) × (delete_all_expired_tokens 5 1 900001 third
      ≡ some (where_rows (is_kept 900001) third, total))
    × (length (where_rows (is_kept 900001) third) + total ≡ length third)
delete_all_expired_tokens_lem_example =
    delete_all_expired_tokens_lem 5 1 900001 third (omega arith) (omega arith)

-- A session begins, is renewed, and is closed with all of its user.
Run-Lived_example :
    Lived 30
      (close_sessions 1
        ∷ renew_session 101 102 (session_of (token 2 20))
        ∷ open_session 101 (session_of (token 1 10))
        ∷ [])
      (standing (revoked 20 (token 1 10) ∷ revoked 30 (token 2 20) ∷ []))
unfolding find_unique replace live_count create_session_atomic rotate_refresh_token where_rows
    order_by insert_by revoke_all_user_tokens revoke_where
Run-Lived_example =
    Run-Lived 30
      (close_sessions 1
        ∷ renew_session 101 102 (session_of (token 2 20))
        ∷ open_session 101 (session_of (token 1 10))
        ∷ [])
      (revoked 20 (token 1 10) ∷ revoked 30 (token 2 20) ∷ [])
      (steps {before = 20} {ts = revoked 20 (token 1 10) ∷ token 2 20 ∷ []}
        (steps {before = 10} {ts = token 1 10 ∷ []}
          (steps {before = 10} {ts = []} (starts 10) (omega arith)
            (creates (token 1 10) 2 refl refl))
          (omega arith) (rotates 101 (token 2 20) refl refl))
        (omega arith) (revokes_all 1 refl))
