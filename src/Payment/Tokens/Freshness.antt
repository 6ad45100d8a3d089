-- ===== src/Payment/Tokens/Freshness.antt =====
-- src/modules/payment/providers/paypal-token.client.ts: how long a token is used.
use payment_wallet_system.Prelude.{
  ◌+◌, ◌*◌, ◌<◌, String, ◌≡◌, refl, ◌⊎◌, Option, none, some, Option-cases, Bool-cases, true, inl,
  inr, arith,
}
use payment_wallet_system.Db.Schema.{Time}
use payment_wallet_system.Payment.Repository.{truthy}
use payment_wallet_system.Payment.Providers.{Answer, answered, thrown}
use payment_wallet_system.Payment.Tokens.{
  CachedToken, Credentials, TokenResponse, is_token_valid, fetch_and_cache_token, get_access_token,
}

Reply-cases :
    {A : Type 0} (r : Answer A) → ((a : A) × (r ≡ answered a)) ⊎ ((x : String) × (r ≡ thrown x))
Reply-cases (answered a) = inl (a, refl)
Reply-cases (thrown x) = inr (x, refl)

-- The token that is kept is the one that was answered, and it lasts for a minute more.
abbrev pub IsFresh : Time → String → CachedToken → Type 0
IsFresh now token t = (t.access_token ≡ token) × (now + 60000 < t.expires_at)

fetched-IsFresh :
    (fetch : String → String → Answer TokenResponse) (c : Credentials) (now : Time)
    (cached cached' : Option CachedToken) (token : String)
    → ((id secret : String) (r : TokenResponse) → fetch id secret ≡ answered r → 60 < r.expires_in)
    → fetch_and_cache_token fetch c now cached ≡ (answered token, cached')
    → (t : CachedToken) × (cached' ≡ some t) × IsFresh now token t
unfolding fetch_and_cache_token
fetched-IsFresh fetch c now cached cached' token long e = elim (Option-cases (truthy c.client_id)) [
  | inl no_id ↦ ground arith
  | inr (id, has_id) ↦ elim (Option-cases (truthy c.client_secret)) [
    | inl no_secret ↦ ground arith
    | inr (secret, has_secret) ↦ elim (Reply-cases (fetch id secret)) [
      | inr (x, failed) ↦ ground arith
      | inl (r, got) ↦
          let lasts = long id secret r got in
          (
            record { access_token = r.access_token; expires_at = now + r.expires_in * 1000 },
            ground arith,
            (ground arith, ground arith),
          )
    ]
  ]
]

got-IsFresh :
    (fetch : String → String → Answer TokenResponse) (c : Credentials) (now : Time)
    (cached cached' : Option CachedToken) (token : String)
    → ((id secret : String) (r : TokenResponse) → fetch id secret ≡ answered r → 60 < r.expires_in)
    → get_access_token fetch c now cached ≡ (answered token, cached')
    → (t : CachedToken) × (cached' ≡ some t) × IsFresh now token t
unfolding get_access_token is_token_valid
got-IsFresh fetch c now none cached' token long e =
    fetched-IsFresh fetch c now none cached' token long e
got-IsFresh fetch c now (some t) cached' token long e =
    elim (Bool-cases (is_token_valid now (some t))) [
      | inl valid ↦ (t, ground arith, (ground arith, ground arith))
      | inr stale ↦ fetched-IsFresh fetch c now (some t) cached' token long (ground arith)
    ]

-- A token that the client answers is kept and lasts for more than a minute, whether it was fetched or
-- kept from before, if PayPal gives tokens of more than a minute; and if one is asked for again while
-- it lasts so long, then it is answered without a request, whatever PayPal would answer.
get_access_token-IsFresh :
    (fetch fetch' : String → String → Answer TokenResponse) (c c' : Credentials) (now later : Time)
    (cached cached' : Option CachedToken) (token : String)
    → ((id secret : String) (r : TokenResponse) → fetch id secret ≡ answered r → 60 < r.expires_in)
    → get_access_token fetch c now cached ≡ (answered token, cached')
    → is_token_valid later cached' ≡ true
    → ((t : CachedToken) × (cached' ≡ some t) × IsFresh now token t)
      × (get_access_token fetch' c' later cached' ≡ (answered token, cached'))
unfolding get_access_token is_token_valid
get_access_token-IsFresh fetch fetch' c c' now later cached cached' token long e lasts =
    (got-IsFresh fetch c now cached cached' token long e, ground arith)
