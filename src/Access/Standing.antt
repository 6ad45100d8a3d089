-- ===== src/Access/Standing.antt =====
-- src/modules/auth: what an account that is not active can do.
use payment_wallet_system.Prelude.{◌≡◌}
use payment_wallet_system.Db.Tx.{Result, err, Exception}
use payment_wallet_system.Auth.Outside.{Outside}
use payment_wallet_system.Auth.Calls.{Server}

-- The call throws, and leaves the database and Redis as they were.
abbrev pub TurnsAway : {A R : Type 0} → Server R → Result A × Server R → Type 0
TurnsAway s p = (e : Exception) × (p ≡ (err e, s))
