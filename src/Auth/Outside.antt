-- ===== src/Auth/Outside.antt =====
-- What src/modules/auth and src/modules/crypto call and do not define: Redis, argon2, the signing of
-- JWTs, and the primitives of node:crypto. Each call of Redis may fail.
use payment_wallet_system.Prelude.{
  ℕ, String, ◌+◌, ◌*◌, ◌≤◌, ◌<◌, ◌≡◌, ◌⊎◌, Option, none, some, Bool, true, List,
}
use payment_wallet_system.Prelude.Lists.{length}
use payment_wallet_system.Db.Schema.{Uuid, Time, Role}
use payment_wallet_system.Db.Query.{Every}

-- The keys `rcache:v1:<hash>`, `denylist:<jti>` and `locks:token_cleanup`.
pub data RedisKey : Type 0 where
  rotation_cache : ℕ → RedisKey
  denylist : String → RedisKey
  cleanup_lock : RedisKey

-- A text that is only bytes in hexadecimal, as the codes of its characters.
abbrev pub Hex : Type 0
Hex = List ℕ

abbrev pub Bytes : Type 0
Bytes = List ℕ

abbrev pub AreBytes : Bytes → Type 0
AreBytes bs = Every (λ b. b < 256) bs

pub record JwtPayload : Type 0 where
  pub sub : Uuid
  pub email : String
  pub role : Role
  pub jti : String

pub record TokenPair : Type 0 where
  pub access_token : String
  pub refresh_token : String

-- A value of Redis is kept for so many seconds. `false` stands for a call that throws, after which
-- the state may be any.
pub record Outside : Type 1 where
  pub Redis : Type 0
  pub set : RedisKey → Hex → ℕ → Time → Redis → Bool × Redis
  pub set_nx : RedisKey → Hex → ℕ → Time → Redis → Option Bool × Redis
  pub get : RedisKey → Time → Redis → Option (Option Hex)
  pub del : RedisKey → Redis → Bool × Redis
  pub sign : String → Option String → Time → JwtPayload → String
  pub hmac : String → String → ℕ
  pub argon_hash : String → String → String
  pub argon_verify : String → String → Bool
  pub lower : String → String
  pub stringify : TokenPair → String
  pub json_parse : String → Option TokenPair
  pub gcm_seal : Bytes → Bytes → String → Bytes × Bytes
  pub gcm_open : Bytes → Bytes → Bytes → Bytes → Option String
  -- What was set is there until its time is over, as far as Redis answers.
  pub set-get :
      (k : RedisKey) (v : Hex) (ttl : ℕ) (now later : Time) (r r' : Redis)
      → set k v ttl now r ≡ (true, r')
      → now ≤ later
      → later < now + ttl * 1000
      → (get k later r' ≡ none) ⊎ (get k later r' ≡ some (some v))
  -- A password is verified against its own hash.
  pub verify-hash : (salt p : String) → argon_verify (argon_hash salt p) p ≡ true
  pub parse-stringify : (t : TokenPair) → json_parse (stringify t) ≡ some t
  -- What was sealed under a key and a nonce opens under them; the tag has sixteen bytes.
  pub open-seal :
      (key iv : Bytes) (p : String)
      → gcm_open key iv (gcm_seal key iv p).0 (gcm_seal key iv p).1 ≡ some p
  pub length-tag : (key iv : Bytes) (p : String) → length (gcm_seal key iv p).1 ≡ 16
  pub seal-AreBytes :
      (key iv : Bytes) (p : String)
      → AreBytes (gcm_seal key iv p).0 × AreBytes (gcm_seal key iv p).1
