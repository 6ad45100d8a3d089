-- ===== src/Auth/Tokens.antt =====
-- src/modules/auth/token.service.ts, with what the configuration holds and what one call draws at
-- random or reads from the clock. An access token is the text that the signing gives.
use Prim.Native.Char.{code}
use payment_wallet_system.Prelude.{ℕ, ◌+◌, ◌/◌, String, Option, none, some, ltb, if◌then◌else◌}
use payment_wallet_system.Db.Schema.{Uuid, Time, Role}
use payment_wallet_system.Db.Tx.{Result, ok, err, Exception, plain_error, bad_configuration}
use payment_wallet_system.Auth.Outside.{Outside, Bytes, TokenPair}
use payment_wallet_system.Auth.Expiry.{parse_expiry}

pub record Config : Type 0 where
  pub hash_secret : Option String
  pub access_secret : String
  pub access_expiry : Option String
  pub refresh_expiry : Option String
  pub max_sessions : ℕ
  pub cache_key : Bytes
  pub dummy_hash : String

pub record Draw : Type 0 where
  pub now : Time
  pub raw_token : String
  pub jti : String
  pub token_id : Uuid
  pub user_id : Uuid
  pub wallet_id : Uuid
  pub salt : String
  pub iv : Bytes

-- `length`, in units of UTF-16.
unfoldable pub units : String → ℕ
units String.[] = 0
units (String.◌∷◌ c s) = (if ltb (code c) 65536 then 1 else 2) + units s

abbrev pub or_throws : {A : Type 0} → Exception → Option A → Result A
or_throws e none = err e
or_throws e (some a) = ok a

unfoldable pub resolve_hash_secret : Config → Result String
unfolding units
resolve_hash_secret cfg = elim cfg.hash_secret [
  | none ↦ err (plain_error bad_configuration)
  | some secret ↦ if ltb (units secret) 32 then err (plain_error bad_configuration) else ok secret
]

-- `parseExpiry`
abbrev pub expiry_of : Option String → Result ℕ
expiry_of text = or_throws (plain_error bad_configuration) (parse_expiry text)

abbrev pub map_result : {A B : Type 0} → (A → B) → Result A → Result B
map_result f (ok a) = ok (f a)
map_result f (err e) = err e

unfoldable pub get_refresh_expiry : Config → Time → Result Time
get_refresh_expiry cfg now = map_result (λ ms. now + ms) (expiry_of cfg.refresh_expiry)

unfoldable pub get_access_token_ttl_seconds : Config → Result ℕ
get_access_token_ttl_seconds cfg = map_result (λ ms. ms / 1000) (expiry_of cfg.access_expiry)

module _ (o : Outside) where
  unfoldable pub hash_token : Config → String → Result ℕ
  unfolding resolve_hash_secret
  hash_token cfg token = map_result (λ secret. o.hmac secret token) (resolve_hash_secret cfg)

  unfoldable pub generate_access_token : Config → Draw → Uuid → String → Role → String
  generate_access_token cfg d user_id email role =
      o.sign cfg.access_secret cfg.access_expiry d.now
        (record { sub = user_id; email = email; role = role; jti = d.jti })

  unfoldable pub generate_token_pair : Config → Draw → Uuid → String → Role → TokenPair
  unfolding generate_access_token
  generate_token_pair cfg d user_id email role = record {
    access_token = generate_access_token cfg d user_id email role;
    refresh_token = d.raw_token;
  }

-- `onModuleInit`, which throws before anything is served if the configuration is wrong.
abbrev pub then_result : {A B : Type 0} → Result A → Result B → Result B
then_result (ok a) r = r
then_result (err e) r = err e

unfoldable pub on_module_init : Config → Result ℕ
unfolding resolve_hash_secret
on_module_init cfg =
    then_result (resolve_hash_secret cfg)
      (then_result (expiry_of cfg.access_expiry) (expiry_of cfg.refresh_expiry))
