-- ===== src/Auth/Sessions.antt =====
-- src/modules/auth/session.service.ts and token-denylist.service.ts, and the writes of
-- auth.repository.ts that they make.
use payment_wallet_system.Prelude.{
  ℕ, String, Option, none, some, Bool, true, false, is_none, ltb, List, [], ◌∷◌, if◌then◌else◌,
}
use payment_wallet_system.Db.Schema.{Uuid, Time, RefreshToken}
use payment_wallet_system.Db.Tx
use payment_wallet_system.Db.Tx.{
  Tx, Result, ok, err, Exception, Reason, database_error, service_unavailable, store_unreachable,
  unique_violation, record_not_found, with_transaction,
}
use payment_wallet_system.Session.{
  find_token, rotate_refresh_token, revoke_refresh_token, revoke_all_user_tokens,
  create_session_atomic,
}
use payment_wallet_system.Auth.Outside.{Outside, rotation_cache, denylist, Hex, TokenPair}
use payment_wallet_system.Auth.Calls.{Call, ◌>>=◌, ◌>>◌, give, settled_call, on_db, softly}
use payment_wallet_system.Auth.Tokens.{
  Config, Draw, hash_token, get_refresh_expiry, get_access_token_ttl_seconds,
}
use payment_wallet_system.Auth.Sealing.{encrypt, decrypt}

-- Seconds, as in auth.constants.ts.
abbrev pub grace_period : ℕ
grace_period = 10

abbrev pub new_token : Draw → Uuid → ℕ → Time → RefreshToken
new_token d user_id hash expires_at = record {
  id = d.token_id;
  user_id = user_id;
  token_hash = hash;
  expires_at = expires_at;
  revoked_at = none;
  created_at = d.now;
}

abbrev put_tokens : Reason → Option (List RefreshToken) → Tx (Unit {0})
put_tokens why none = Tx.throw (database_error why)
put_tokens why (some ts) = Tx.modify (λ db. record db { refresh_tokens = ts })

unfoldable pub create_session_tx : RefreshToken → ℕ → Time → Tx (Unit {0})
create_session_tx new max_sessions now db =
    put_tokens unique_violation (create_session_atomic new max_sessions now db.refresh_tokens) db

-- The update finds no row that is not revoked, or the new row is not unique.
abbrev pub rotation_fault : Option RefreshToken → Reason
rotation_fault none = record_not_found
rotation_fault (some t) = if is_none t.revoked_at then unique_violation else record_not_found

unfoldable pub rotate_tx : ℕ → RefreshToken → Time → Tx (Unit {0})
rotate_tx old_hash new now db =
    put_tokens (rotation_fault (find_token old_hash db.refresh_tokens))
      (rotate_refresh_token old_hash new now db.refresh_tokens) db

unfoldable pub revoke_token_tx : ℕ → Time → Tx (Unit {0})
revoke_token_tx hash now =
    Tx.modify λ db. record db { refresh_tokens = revoke_refresh_token hash now db.refresh_tokens }

unfoldable pub revoke_all_tx : Uuid → Time → Tx (Unit {0})
revoke_all_tx user_id now =
    Tx.modify
      λ db. record db { refresh_tokens = revoke_all_user_tokens user_id now db.refresh_tokens }

module _ (o : Outside) where
  unfoldable pub persist_refresh_token : Config → Draw → Uuid → String → Call o.Redis (Unit {0})
  unfolding hash_token get_refresh_expiry create_session_tx
  persist_refresh_token cfg d user_id raw = do
    hash ← settled_call (hash_token o cfg raw)
    expires_at ← settled_call (get_refresh_expiry cfg d.now)
    on_db (
        with_transaction
          (create_session_tx (new_token d user_id hash expires_at) cfg.max_sessions d.now))

  -- What the cache holds is encrypted, and kept for the grace period; a write that fails is logged.
  unfoldable pub store_rotation_cache : Config → Draw → ℕ → TokenPair → Call o.Redis (Unit {0})
  unfolding encrypt
  store_rotation_cache cfg d old_hash tokens =
      if ltb 60 grace_period
      then give tt
      else softly (
          o.set (rotation_cache old_hash) (encrypt o cfg.cache_key d.iv (o.stringify tokens))
            grace_period d.now)

  unfoldable pub rotate_token :
      Config → Draw → ℕ → RefreshToken → TokenPair → Call o.Redis (Unit {0})
  unfolding rotate_tx store_rotation_cache
  rotate_token cfg d old_hash new tokens = do
    on_db (with_transaction (rotate_tx old_hash new d.now))
    store_rotation_cache cfg d old_hash tokens

  abbrev pub parsed : Option String → Option TokenPair
  parsed none = none
  parsed (some plaintext) = o.json_parse plaintext

  -- An entry that cannot be read, decrypted or parsed counts as none.
  abbrev pub cached_pair : Config → Option (Option Hex) → Option TokenPair
  cached_pair cfg none = none
  cached_pair cfg (some none) = none
  cached_pair cfg (some (some [])) = none
  cached_pair cfg (some (some (c ∷ cs))) = parsed (decrypt o cfg.cache_key (c ∷ cs))

  unfoldable pub get_rotation_cache : Config → Time → ℕ → Call o.Redis (Option TokenPair)
  get_rotation_cache cfg now old_hash s =
      (ok (cached_pair cfg (o.get (rotation_cache old_hash) now s.redis)), s)

  unfoldable pub clear_rotation_cache : ℕ → Call o.Redis (Unit {0})
  clear_rotation_cache hash = softly (o.del (rotation_cache hash))

  unfoldable pub revoke_token : ℕ → Time → Call o.Redis (Unit {0})
  unfolding revoke_token_tx
  revoke_token hash now = on_db (with_transaction (revoke_token_tx hash now))

  unfoldable pub revoke_all_tokens : Uuid → Time → Call o.Redis (Unit {0})
  unfolding revoke_all_tx
  revoke_all_tokens user_id now = on_db (with_transaction (revoke_all_tx user_id now))

  -- `TokenDenylistService.revoke`, where "1" is stored; its failure is logged.
  unfoldable pub deny : String → ℕ → Time → Call o.Redis (Unit {0})
  deny jti ttl now = softly (o.set (denylist jti) (49 ∷ []) ttl now)

  unfoldable pub revoke_access_token : Config → String → Time → Call o.Redis (Unit {0})
  unfolding deny get_access_token_ttl_seconds
  revoke_access_token cfg jti now = do
    ttl ← settled_call (get_access_token_ttl_seconds cfg)
    deny jti ttl now

  abbrev pub is_listed : Option (Option Hex) → Result Bool
  is_listed none = err (service_unavailable store_unreachable)
  is_listed (some none) = ok false
  is_listed (some (some v)) = ok true

  -- `TokenDenylistService.isRevoked`
  unfoldable pub is_revoked : String → Time → Call o.Redis Bool
  is_revoked jti now s = (is_listed (o.get (denylist jti) now s.redis), s)
