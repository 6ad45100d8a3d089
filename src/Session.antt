-- ===== src/Session.antt =====
-- src/modules/auth/auth.repository.ts: the refresh tokens. The clock of a call is an argument; an
-- update of a row that is not there, and a hash or an id that is taken, give no result.
use payment_wallet_system.Prelude.{
  ℕ, ◌+◌, ◌-◌, ◌*◌, Option, none, some, Bool, ◌&&◌, List, [], ◌∷◌, ◌++◌, ltb, leb, is_none, ◌==◌,
  if◌then◌else◌,
}
use payment_wallet_system.Prelude.Lists.{length}
use payment_wallet_system.Db.Schema.{Uuid, Time}
pub use payment_wallet_system.Db.Schema.{RefreshToken}
use payment_wallet_system.Db.Table.{find_unique, replace}
use payment_wallet_system.Db.Query.{where_rows, order_by}

pub data TokenStatus : Type 0 where
  unknown expired current in_grace reused : TokenStatus

abbrev pub find_token : ℕ → List RefreshToken → Option RefreshToken
find_token hash ts = find_unique (λ t. t.token_hash) hash ts

-- Times are in milliseconds, and the leeway in seconds.
abbrev pub revocation_status : ℕ → Time → Option Time → TokenStatus
revocation_status leeway now none = current
revocation_status leeway now (some revoked) =
    if leb now (revoked + leeway * 1000) then in_grace else reused

abbrev pub status_of : ℕ → Time → Option RefreshToken → TokenStatus
status_of leeway now none = unknown
status_of leeway now (some t) =
    if leb t.expires_at now then expired else revocation_status leeway now t.revoked_at

-- `findRefreshTokenWithGrace`
unfoldable pub find_refresh_token_with_grace : ℕ → ℕ → Time → List RefreshToken → TokenStatus
find_refresh_token_with_grace hash leeway now ts = status_of leeway now (find_token hash ts)

-- `create`, with the unique columns.
abbrev pub create_token : RefreshToken → List RefreshToken → Option (List RefreshToken)
create_token t ts =
    if is_none (find_token t.token_hash ts) && is_none (find_unique (λ u. u.id) t.id ts)
    then some (ts ++ t ∷ [])
    else none

abbrev pub revoked : Time → RefreshToken → RefreshToken
revoked now t = record t { revoked_at = some now }

abbrev pub rotate_found :
    Time → RefreshToken → Option RefreshToken → List RefreshToken → Option (List RefreshToken)
rotate_found now new none ts = none
rotate_found now new (some old) ts =
    if is_none old.revoked_at
    then create_token new (replace (λ t. t.token_hash) old.token_hash (revoked now old) ts)
    else none

-- `rotateRefreshToken`: the old token is revoked if it is not yet, and the new one is created.
unfoldable pub rotate_refresh_token :
    ℕ → RefreshToken → Time → List RefreshToken → Option (List RefreshToken)
unfolding find_unique
rotate_refresh_token old_hash new now ts = rotate_found now new (find_token old_hash ts) ts

-- `updateMany({ where: { …, revokedAt: null }, data: { revokedAt: now } })`
unfoldable pub revoke_where : (RefreshToken → Bool) → Time → List RefreshToken → List RefreshToken
revoke_where p now [] = []
revoke_where p now (t ∷ ts) =
    (if p t && is_none t.revoked_at then revoked now t else t) ∷ revoke_where p now ts

unfoldable pub revoke_refresh_token : ℕ → Time → List RefreshToken → List RefreshToken
unfolding revoke_where
revoke_refresh_token hash now ts = revoke_where (λ t. t.token_hash == hash) now ts

unfoldable pub revoke_all_user_tokens : Uuid → Time → List RefreshToken → List RefreshToken
unfolding revoke_where
revoke_all_user_tokens user_id now ts = revoke_where (λ t. t.user_id == user_id) now ts

-- A session of the user that is neither revoked nor expired.
abbrev pub is_live : Uuid → Time → RefreshToken → Bool
is_live user_id now t = t.user_id == user_id && is_none t.revoked_at && ltb now t.expires_at

unfoldable pub live_count : Uuid → Time → List RefreshToken → ℕ
unfolding where_rows
live_count user_id now ts = length (where_rows (is_live user_id now) ts)

abbrev pub evict : Time → List RefreshToken → List RefreshToken → List RefreshToken
evict now [] ts = ts
evict now (oldest ∷ rest) ts = replace (λ t. t.id) oldest.id (revoked now oldest) ts

-- `createSessionAtomic`: at the bound, the oldest live session is revoked before the new one is
-- created. The lock makes the calls of one user follow one another.
unfoldable pub create_session_atomic :
    RefreshToken → ℕ → Time → List RefreshToken → Option (List RefreshToken)
unfolding live_count order_by find_unique
create_session_atomic new max_sessions now ts =
    let live =
      order_by (λ a b. ltb a.created_at b.created_at) (where_rows (is_live new.user_id now) ts) in
    create_token new
      (if leb max_sessions (live_count new.user_id now ts) then evict now live ts else ts)

-- One batch of the cleanup deletes the first rows that have expired, and this is what is left.
unfoldable pub delete_batch : ℕ → Time → List RefreshToken → List RefreshToken
delete_batch ℕ.zero now ts = ts
delete_batch (ℕ.suc n) now [] = []
delete_batch (ℕ.suc n) now (t ∷ ts) =
    let deleted = delete_batch n now ts in
    let kept = delete_batch (ℕ.suc n) now ts in if ltb t.expires_at now then deleted else t ∷ kept

-- `deleteAllExpiredTokens`, whose loop is given some fuel: the rows that are left, and the total.
unfoldable pub delete_all_expired_tokens :
    ℕ → ℕ → Time → List RefreshToken → Option (List RefreshToken × ℕ)
unfolding delete_batch
delete_all_expired_tokens ℕ.zero batch_size now ts = none
delete_all_expired_tokens (ℕ.suc fuel) batch_size now ts =
    let left = delete_batch batch_size now ts in
    let deleted = length ts - length left in
    let more = delete_all_expired_tokens fuel batch_size now left in
    if ltb deleted batch_size
    then some (left, deleted)
    else elim more [ none ↦ none | some (end, total) ↦ some (end, deleted + total) ]
