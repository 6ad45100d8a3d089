-- ===== src/Access/Opening.antt =====
-- src/modules/auth/auth.service.ts: the session that registration and login open.
use payment_wallet_system.Prelude.{
  ℕ, ◌≡◌, refl, inl, inr, none, some, false, Bool-cases, List, [], ◌∷◌, ◌++◌, arith, ◌==◌, leb, ltb,
}
use payment_wallet_system.Db.Schema.{Time, User, RefreshToken}
use payment_wallet_system.Db.Table.{find_unique, Every-of_none, none-of_Every, Every-replace}
use payment_wallet_system.Db.Query.{Every, where_rows, order_by, Every-where_of, Every-order_by}
use payment_wallet_system.Db.Tx.{ok}
use payment_wallet_system.Session.{
  find_token, is_live, live_count, evict, revoked, create_session_atomic,
}
use payment_wallet_system.Auth.Outside.{Outside}
use payment_wallet_system.Auth.Calls.{Server}
use payment_wallet_system.Auth.Tokens.{
  Config, Draw, hash_token, generate_token_pair, get_refresh_expiry,
}
use payment_wallet_system.Auth.Sessions.{new_token, create_session_tx, persist_refresh_token}
use payment_wallet_system.Auth.Service.{open_session}

-- Evicting a session leaves a column's free value free.
evict_free :
    (column : RefreshToken → ℕ) (k : ℕ) (now : Time) (live ts : List RefreshToken)
    → ((t : RefreshToken) → column (revoked now t) ≡ column t)
    → Every (λ t. (column t == k) ≡ false) live
    → find_unique column k ts ≡ none
    → find_unique column k (evict now live ts) ≡ none
evict_free column k now [] ts same h e = e
evict_free column k now (oldest ∷ rest) ts same h e = none-of_Every column k _ (
    Every-replace (λ t. t.id) (λ t. (column t == k) ≡ false) oldest.id (revoked now oldest) ts
      (Every-of_none column k ts e) (rw (same oldest) h.0))

-- The draws of a call are fresh, and the configuration can be read.
pub record CanOpen (o : Outside) (cfg : Config) (d : Draw) (ts : List RefreshToken) : Type 0 where
  pub hash : ℕ
  pub expires_at : Time
  pub hashes : hash_token o cfg d.raw_token ≡ ok hash
  pub expires : get_refresh_expiry cfg d.now ≡ ok expires_at
  pub new_hash : find_token hash ts ≡ none
  pub new_id : find_unique (λ t. t.id) d.token_id ts ≡ none

created :
    (new : RefreshToken) (max_sessions : ℕ) (now : Time) (ts : List RefreshToken)
    → find_token new.token_hash ts ≡ none
    → find_unique (λ t. t.id) new.id ts ≡ none
    → (ts' : List RefreshToken) × (create_session_atomic new max_sessions now ts ≡ some ts')
unfolding create_session_atomic
created new max_sessions now ts h i =
    elim (Bool-cases (leb max_sessions (live_count new.user_id now ts))) [
      | inl full ↦ (
        evict now live ts ++ new ∷ [],
        rw
            (
              full,
              evict_free (λ t. t.token_hash) new.token_hash now live ts (λ t. refl) hashes h,
              evict_free (λ t. t.id) new.id now live ts (λ t. refl) ids i,
            )
            refl,
      )
      | inr room ↦ (ts ++ new ∷ [], rw (room, h, i) refl)
    ]
  where
    live : List RefreshToken
    live = order_by (λ a b. ltb a.created_at b.created_at) (where_rows (is_live new.user_id now) ts)

    hashes : Every (λ t. (t.token_hash == new.token_hash) ≡ false) live
    hashes = Every-order_by _ _ _ (Every-where_of _ _ ts (Every-of_none (λ t. t.token_hash) _ ts h))

    ids : Every (λ t. (t.id == new.id) ≡ false) live
    ids = Every-order_by _ _ _ (Every-where_of _ _ ts (Every-of_none (λ t. t.id) _ ts i))

pub open_session_lem :
    (o : Outside) (cfg : Config) (d : Draw) (u : User) (s : Server o.Redis)
    → CanOpen o cfg d s.db.refresh_tokens
    → (ts : List RefreshToken) × (open_session o cfg d u s ≡ (
      ok (generate_token_pair o cfg d u.id u.email u.role),
      record s { db = record s.db { refresh_tokens = ts } },
    ))
unfolding open_session persist_refresh_token create_session_tx generate_token_pair
open_session_lem o cfg d u s c =
    let hashes = c.hashes in
    let expires = c.expires in
    let (ts, e) =
      created (new_token d u.id c.hash c.expires_at) cfg.max_sessions d.now s.db.refresh_tokens
        c.new_hash c.new_id in
    (ts, ground arith)
