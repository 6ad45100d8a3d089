-- ===== src/Auth/Cleanup.antt =====
-- src/modules/auth/token-cleanup.service.ts: the nightly run, under a lock in Redis. A call of Redis
-- that fails before the run ends it; one that fails behind it, where the lock is released, is left to
-- the lock's time.
use payment_wallet_system.Prelude.{ℕ, ◌*◌, Option, none, some, Bool, true, false, List, [], ◌∷◌}
use payment_wallet_system.Db.Schema.{Time, RefreshToken}
use payment_wallet_system.Db.Tx.{Result, ok, err, plain_error, store_unreachable}
use payment_wallet_system.Session.{delete_all_expired_tokens}
use payment_wallet_system.Prelude.Lists.{length}
use payment_wallet_system.Auth.Outside.{Outside, cleanup_lock}
use payment_wallet_system.Auth.Calls.{Server, Call}

abbrev pub cleanup_batch_size : ℕ
cleanup_batch_size = 1000

abbrev pub cleanup_lock_ttl : ℕ
cleanup_lock_ttl = 10 * 60

module _ (o : Outside) where
  abbrev kept : Option (List RefreshToken × ℕ) → List RefreshToken → List RefreshToken
  kept none ts = ts
  kept (some (left, total)) ts = left

  -- One round more than there are tokens is enough for the loop.
  abbrev clean : Time → Server o.Redis → Server o.Redis
  clean now s =
      let ts = s.db.refresh_tokens in
      let run = delete_all_expired_tokens (ℕ.suc (length ts)) cleanup_batch_size now ts in
      record s { db = record s.db { refresh_tokens = kept run ts } }

  abbrev released : Bool × o.Redis → Server o.Redis → Result (Unit {0}) × Server o.Redis
  released (true, r) s = (ok tt, record s { redis = r })
  released (false, r) s = (err (plain_error store_unreachable), record s { redis = r })

  abbrev locked_run :
      Time → Server o.Redis → Option Bool × o.Redis → Result (Unit {0}) × Server o.Redis
  locked_run now s (none, r) = (err (plain_error store_unreachable), record s { redis = r })
  locked_run now s (some false, r) = (ok tt, record s { redis = r })
  locked_run now s (some true, r) =
      released (o.del cleanup_lock r) (clean now (record s { redis = r }))

  unfoldable pub cleanup_expired_tokens : Time → Call o.Redis (Unit {0})
  unfolding delete_all_expired_tokens
  cleanup_expired_tokens now s =
      locked_run now s (o.set_nx cleanup_lock (49 ∷ []) cleanup_lock_ttl now s.redis)
