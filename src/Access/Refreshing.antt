-- ===== src/Access/Refreshing.antt =====
-- src/modules/auth/auth.service.ts: a refresh token that is sent again.
use payment_wallet_system.Prelude.{
  ℕ, ◌+◌, ◌*◌, ◌≤◌, ◌<◌, String, ◌≡◌, refl, sym, ap, ◌∙◌, ◌⊎◌, inl, inr, none, some, true,
  Bool-cases, Option-cases, [], ◌∷◌, arith,
}
use payment_wallet_system.Prelude.Lists.{length}
use payment_wallet_system.Db.Schema.{Time, RefreshToken}
use payment_wallet_system.Db.Tx.{ok, err, unauthorized, invalid_token, security_breach}
use payment_wallet_system.Db.Writes.{find_user}
use payment_wallet_system.Wallet.{is_active}
use payment_wallet_system.Session.{
  current, find_token, revoked, rotate_refresh_token, live_count, revoke_all_user_tokens,
}
use payment_wallet_system.Sessions.Rotation.{find_token-rotate}
use payment_wallet_system.Sessions.Revocation.{no_live_session}
use payment_wallet_system.Auth.Outside.{Outside, TokenPair, Bytes, AreBytes, rotation_cache}
use payment_wallet_system.Auth.Calls.{Server, Answer-cases}
use payment_wallet_system.Auth.Tokens.{
  Config, Draw, hash_token, generate_token_pair, get_refresh_expiry,
}
use payment_wallet_system.Auth.Sealing.{encrypt, to_hex}
use payment_wallet_system.Auth.Sealing.RoundTrip.{decrypt-encrypt}
use payment_wallet_system.Auth.Sessions.{
  new_token, rotate_tx, rotate_token, store_rotation_cache, get_rotation_cache,
  clear_rotation_cache, revoke_all_tokens, revoke_all_tx, cached_pair, parsed,
}
use payment_wallet_system.Auth.Service.{refresh, refresh_current, refresh_session, session_status}

-- The raw token is that of a current session.
pub record IsCurrent (o : Outside) (cfg : Config) (raw : String) (now : Time) (s : Server o.Redis)
    : Type 0 where
  pub hash : ℕ
  pub session : RefreshToken
  pub hashes : hash_token o cfg raw ≡ ok hash
  pub found : find_token hash s.db.refresh_tokens ≡ some session
  pub live : session_status now (some session) ≡ current

-- What a successful refresh of a current session has done.
record Rotates (o : Outside) (cfg : Config) (d : Draw) (hash : ℕ) (pair : TokenPair)
    (s s' : Server o.Redis) : Type 0 where
  new : RefreshToken
  rotated : rotate_refresh_token hash new d.now s.db.refresh_tokens ≡ some s'.db.refresh_tokens
  stored :
      s'.redis
      ≡ (o.set
          (rotation_cache hash)
          (encrypt o cfg.cache_key d.iv (o.stringify pair))
          10
          d.now
          s.redis).1

module _ (o : Outside) (cfg : Config) (d : Draw) (raw : String) where
  refresh_current-Rotates :
      (hash : ℕ) (session : RefreshToken) (pair : TokenPair) (s s' : Server o.Redis)
      → refresh_current o cfg d hash session s ≡ (ok pair, s')
      → Rotates o cfg d hash pair s s'
  unfolding refresh_current generate_token_pair rotate_token rotate_tx store_rotation_cache
  refresh_current-Rotates hash session pair s s' e =
      elim (Option-cases (find_user session.user_id s.db)) [
        | inl gone ↦ ground arith
        | inr (u, found) ↦ elim (Bool-cases (is_active u.status)) [
          | inr inactive ↦ ground arith
          | inl is_on ↦ elim (Answer-cases (hash_token o cfg d.raw_token)) [
            | inr (x, unhashed) ↦ ground arith
            | inl (h, hashed) ↦ elim (Answer-cases (get_refresh_expiry cfg d.now)) [
              | inr (x, unread) ↦ ground arith
              | inl (expires, read) ↦
                  let new = new_token d u.id h expires in
                  elim (Option-cases (rotate_refresh_token hash new d.now s.db.refresh_tokens)) [
                    | inl refused ↦ ground arith
                    | inr (ts, done) ↦ record {
                      new = new;
                      rotated = ground arith;
                      stored = ground arith;
                    }
                  ]
            ]
          ]
        ]
      ]

  pub refresh_at_current :
      (s : Server o.Redis) (c : IsCurrent o cfg raw d.now s)
      → refresh o cfg d raw s ≡ refresh_current o cfg d c.hash c.session s
  unfolding refresh refresh_session
  refresh_at_current s c =
      let hashes = c.hashes in let found = c.found in let live = c.live in ground arith

-- What the cache holds is read back as the pair.
cached-encrypt :
    (o : Outside) (cfg : Config) (iv : Bytes) (pair : TokenPair)
    → length iv ≡ 12
    → AreBytes iv
    → cached_pair o cfg (some (some (encrypt o cfg.cache_key iv (o.stringify pair)))) ≡ some pair
unfolding encrypt to_hex
cached-encrypt o cfg [] pair l b = absurd (omega (arith, l))
cached-encrypt o cfg (x ∷ iv) pair l b =
    ap (parsed o) (decrypt-encrypt o cfg.cache_key (x ∷ iv) (o.stringify pair) l b)
    ∙ o.parse-stringify pair

module _ (o : Outside) (cfg : Config) (d d' : Draw) (raw : String) (pair : TokenPair)
    (s s' : Server o.Redis) (c : IsCurrent o cfg raw d.now s)
    (first : refresh o cfg d raw s ≡ (ok pair, s')) where
  rotation : Rotates o cfg d c.hash pair s s'
  rotation =
      refresh_current-Rotates o cfg d raw c.hash c.session pair s s'
        (sym (refresh_at_current o cfg d raw s c) ∙ first)

  found_revoked : find_token c.hash s'.db.refresh_tokens ≡ some (revoked d.now c.session)
  found_revoked =
      find_token-rotate c.hash rotation.new c.session d.now s.db.refresh_tokens s'.db.refresh_tokens
        c.found rotation.rotated

  in_cache :
      (o.set
          (rotation_cache c.hash)
          (encrypt o cfg.cache_key d.iv (o.stringify pair))
          10
          d.now
          s.redis).0
        ≡ true
      → d.now ≤ d'.now
      → d'.now < d.now + 10 * 1000
      → (o.get (rotation_cache c.hash) d'.now s'.redis ≡ none)
        ⊎ (o.get (rotation_cache c.hash) d'.now s'.redis
            ≡ some (some (encrypt o cfg.cache_key d.iv (o.stringify pair))))
  in_cache wrote after within =
      o.set-get (rotation_cache c.hash) (encrypt o cfg.cache_key d.iv (o.stringify pair)) 10 d.now
        d'.now s.redis s'.redis (let stored = rotation.stored in ground arith) after within

  -- A refresh token that was current is sent again within the ten seconds of grace, and before it
  -- expires. If the cache was written, then the answer is the same pair of tokens and nothing
  -- changes, or else Redis does not answer, the token is refused, and the database stays as it is.
  pub refresh-replays :
      (o.set
          (rotation_cache c.hash)
          (encrypt o cfg.cache_key d.iv (o.stringify pair))
          10
          d.now
          s.redis).0
        ≡ true
      → length d.iv ≡ 12
      → AreBytes d.iv
      → d.now ≤ d'.now
      → d'.now < d.now + 10 * 1000
      → d'.now < c.session.expires_at
      → (refresh o cfg d' raw s' ≡ (ok pair, s'))
        ⊎ ((o.get (rotation_cache c.hash) d'.now s'.redis ≡ none)
            × (refresh o cfg d' raw s' ≡ (
              err (unauthorized invalid_token),
              record s' { redis = (o.del (rotation_cache c.hash) s'.redis).1 },
            )))
  unfolding refresh refresh_session get_rotation_cache clear_rotation_cache
  refresh-replays wrote l b after within unexpired =
      let hashes = c.hashes in
      let there = found_revoked in
      let cached = cached-encrypt o cfg d.iv pair l b in
      elim (in_cache wrote after within) [
        | inl silent ↦ inr (silent, ground arith)
        | inr kept ↦ inl (ground arith)
      ]

  -- A refresh token that was current is sent again after the ten seconds of grace, and before it
  -- expires: it is refused as a breach, its user has no live session left at any time, and of the
  -- database only the refresh tokens change.
  pub refresh-breach :
      (later : Time)
      → d.now + 10 * 1000 < d'.now
      → d'.now < c.session.expires_at
      → (s'' : Server o.Redis) × (refresh o cfg d' raw s'
          ≡ (err (unauthorized security_breach), s''))
        × (live_count c.session.user_id later s''.db.refresh_tokens ≡ 0)
        × (s''.db ≡ record s'.db { refresh_tokens = s''.db.refresh_tokens })
  unfolding refresh refresh_session revoke_all_tokens revoke_all_tx clear_rotation_cache
      revoke_all_user_tokens
  refresh-breach later past unexpired =
      let hashes = c.hashes in
      let there = found_revoked in
      let ts = revoke_all_user_tokens c.session.user_id d'.now s'.db.refresh_tokens in
      (
        record {
          db = record s'.db { refresh_tokens = ts };
          redis = (o.del (rotation_cache c.hash) s'.redis).1;
        },
        ground arith,
        no_live_session c.session.user_id d'.now later s'.db.refresh_tokens,
        refl,
      )
