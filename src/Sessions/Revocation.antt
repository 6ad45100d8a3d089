-- ===== src/Sessions/Revocation.antt =====
-- src/modules/auth/auth.repository.ts: the revocation of tokens.
use payment_wallet_system.Prelude.{◌≡◌, refl, false, arith, [], ◌∷◌, List, ◌==◌}
use payment_wallet_system.Db.Schema.{Uuid, Time}
use payment_wallet_system.Db.Query.{where_rows}
use payment_wallet_system.Session.{RefreshToken, live_count, revoke_where, revoke_all_user_tokens}

pub no_live_session :
    (u : Uuid) (now later : Time) (ts : List RefreshToken)
    → live_count u later (revoke_where (λ t. t.user_id == u) now ts) ≡ 0
unfolding live_count revoke_where where_rows
no_live_session u now later [] = refl
no_live_session u now later (t ∷ ts) = ground (arith, no_live_session u now later ts)

others_live :
    (u v : Uuid) (now later : Time) (ts : List RefreshToken)
    → (u == v) ≡ false
    → live_count v later (revoke_where (λ t. t.user_id == u) now ts) ≡ live_count v later ts
unfolding live_count revoke_where where_rows
others_live u v now later [] d = refl
others_live u v now later (t ∷ ts) d = ground (arith, others_live u v now later ts d)

-- After all tokens of a user are revoked, the user has no live session at any time, and every other
-- user has as many as before.
pub revoke_all_user_tokens_lem :
    (u v : Uuid) (now later : Time) (ts : List RefreshToken)
    → (u == v) ≡ false
    → (live_count u later (revoke_all_user_tokens u now ts) ≡ 0)
      × (live_count v later (revoke_all_user_tokens u now ts) ≡ live_count v later ts)
unfolding revoke_all_user_tokens
revoke_all_user_tokens_lem u v now later ts d =
    (no_live_session u now later ts, others_live u v now later ts d)
