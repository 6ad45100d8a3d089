-- ===== src/Auth/Guard.antt =====
-- src/modules/auth/strategies/jwt.strategy.ts: what a signed access token must pass at each request.
use payment_wallet_system.Prelude.{not}
use payment_wallet_system.Db.Schema.{Time}
use payment_wallet_system.Db.Tx.{unauthorized, token_revoked, user_gone, account_not_active}
use payment_wallet_system.Db.Writes.{find_user}
use payment_wallet_system.Wallet.{is_active}
use payment_wallet_system.Auth.Outside.{Outside, JwtPayload}
use payment_wallet_system.Auth.Calls.{Call, ◌>>=◌, ◌>>◌, give, give_or, check, read_db}
use payment_wallet_system.Auth.Sessions.{is_revoked}

module _ (o : Outside) where
  unfoldable pub validate : JwtPayload → Time → Call o.Redis JwtPayload
  unfolding is_revoked
  validate payload now = do
    denied ← is_revoked o payload.jti now
    check (not denied) (unauthorized token_revoked)
    user ← give_or (unauthorized user_gone) (← read_db (find_user payload.sub))
    check (is_active user.status) (unauthorized account_not_active)
    give payload
