-- ===== src/Access/Denial.antt =====
-- src/modules/auth/auth.service.ts and strategies/jwt.strategy.ts: logging out everywhere.
use payment_wallet_system.Prelude.{◌≡◌, ◌⊎◌}
use payment_wallet_system.Db.Schema.{Time}
use payment_wallet_system.Db.Tx.{
  err, unauthorized, token_revoked, service_unavailable, store_unreachable,
}
use payment_wallet_system.Auth.Outside.{Outside, JwtPayload}
use payment_wallet_system.Auth.Calls.{Server}
use payment_wallet_system.Auth.Guard.{validate}

-- The access token is not let in, and nothing changes.
abbrev pub NotLetIn : (o : Outside) → JwtPayload → Time → Server o.Redis → Type 0
NotLetIn o payload now s =
    (validate o payload now s ≡ (err (unauthorized token_revoked), s))
    ⊎ (validate o payload now s ≡ (err (service_unavailable store_unreachable), s))
