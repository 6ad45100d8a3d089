-- ===== src/Payment/Tokens.antt =====
-- src/modules/payment/providers/paypal-token.client.ts: the access token of PayPal, which one process
-- keeps. The request to PayPal, with the credentials and the address, is a parameter.
pub mod Freshness
use payment_wallet_system.Prelude.{
  ℕ, ◌+◌, ◌*◌, String, Option, none, some, Bool, true, false, ltb, if◌then◌else◌,
}
use payment_wallet_system.Db.Schema.{Time}
use payment_wallet_system.Payment.Repository.{truthy}
use payment_wallet_system.Payment.Providers.{Answer, answered, thrown}

pub record CachedToken : Type 0 where
  pub access_token : String
  pub expires_at : Time

pub record Credentials : Type 0 where
  pub client_id : Option String
  pub client_secret : Option String

-- What PayPal sends back; the time to live is in seconds.
pub record TokenResponse : Type 0 where
  pub access_token : String
  pub expires_in : ℕ

abbrev pub expiry_buffer : ℕ
expiry_buffer = 60 * 1000

-- `Date.now() < expiresAt - EXPIRY_BUFFER_MS`, which may be below zero.
unfoldable pub is_token_valid : Time → Option CachedToken → Bool
is_token_valid now none = false
is_token_valid now (some t) = ltb (now + expiry_buffer) t.expires_at

abbrev pub cache_response :
    Time → Option CachedToken → Answer TokenResponse → Answer String × Option CachedToken
cache_response now cached (thrown error) = (thrown error, cached)
cache_response now cached (answered r) = (
  answered r.access_token,
  some (record { access_token = r.access_token; expires_at = now + r.expires_in * 1000 }),
)

abbrev pub with_credentials :
    (String → String → Answer TokenResponse) → Option String → Option String → Answer TokenResponse
with_credentials fetch (some id) (some secret) = fetch id secret
with_credentials fetch none secret =
    thrown "PAYPAL_CLIENT_ID and PAYPAL_CLIENT_SECRET must be configured for PayPal payouts."
with_credentials fetch (some id) none =
    thrown "PAYPAL_CLIENT_ID and PAYPAL_CLIENT_SECRET must be configured for PayPal payouts."

unfoldable pub fetch_and_cache_token :
    (String → String → Answer TokenResponse)
    → Credentials
    → Time
    → Option CachedToken
    → Answer String × Option CachedToken
fetch_and_cache_token fetch c now cached =
    cache_response now cached (with_credentials fetch (truthy c.client_id) (truthy c.client_secret))

abbrev pub token_or :
    Bool
    → Option CachedToken
    → Answer String × Option CachedToken
    → Answer String × Option CachedToken
token_or true (some t) fetched = (answered t.access_token, some t)
token_or true none fetched = fetched
token_or false cached fetched = fetched

unfoldable pub get_access_token :
    (String → String → Answer TokenResponse)
    → Credentials
    → Time
    → Option CachedToken
    → Answer String × Option CachedToken
unfolding is_token_valid fetch_and_cache_token
get_access_token fetch c now cached =
    token_or (is_token_valid now cached) cached (fetch_and_cache_token fetch c now cached)
