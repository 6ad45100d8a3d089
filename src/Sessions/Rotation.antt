-- ===== src/Sessions/Rotation.antt =====
-- src/modules/auth/auth.repository.ts: the rotation of a refresh token.
use payment_wallet_system.Prelude.{
  ℕ, ◌+◌, ◌*◌, ◌≡◌, refl, some, none, inl, inr, Option-cases, arith, leb, if◌then◌else◌, ◌++◌, [],
  ◌∷◌, List, ==_refl,
}
use payment_wallet_system.Db.Schema.{Time}
use payment_wallet_system.Db.Table.{
  replace, find_unique-column, find_unique-replace, find_unique-snoc_old, find_unique_self,
}
use payment_wallet_system.Session.{
  RefreshToken, expired, in_grace, reused, find_token, revoked, rotate_found, rotate_refresh_token,
  find_refresh_token_with_grace,
}

rotated :
    (old_hash : ℕ) (new t : RefreshToken) (now : Time) (ts ts' : List RefreshToken)
    → find_token old_hash ts ≡ some t
    → rotate_found now new (some t) ts ≡ some ts'
    → find_token old_hash ts' ≡ some (revoked now t)
rotated old_hash new t now ts ts' f e =
    rw written (find_unique-snoc_old (λ v. v.token_hash) old_hash _ new (revoked now t) there)
  where
    key : t.token_hash ≡ old_hash
    key = find_unique-column (λ v. v.token_hash) old_hash ts t f

    written : ts' ≡ replace (λ v. v.token_hash) t.token_hash (revoked now t) ts ++ new ∷ []
    written = ground arith

    there :
        find_token old_hash (replace (λ v. v.token_hash) t.token_hash (revoked now t) ts)
        ≡ some (revoked now t)
    there = rw (← key) (
        rw
          (find_unique-replace (λ v. v.token_hash) t.token_hash t.token_hash (revoked now t) t ts
            refl (find_unique_self (λ v. v.token_hash) old_hash ts t f))
          (rw (==_refl t.token_hash) refl))

pub find_token-rotate :
    (old_hash : ℕ) (new t : RefreshToken) (now : Time) (ts ts' : List RefreshToken)
    → find_token old_hash ts ≡ some t
    → rotate_refresh_token old_hash new now ts ≡ some ts'
    → find_token old_hash ts' ≡ some (revoked now t)
unfolding rotate_refresh_token
find_token-rotate old_hash new t now ts ts' f e = rotated old_hash new t now ts ts' f (ground arith)

-- A token that has been rotated cannot be rotated again, and its state is that of a revoked one:
-- expired if its time is over, in grace for the leeway after the rotation, and reused from then on.
pub rotate_refresh_token-once :
    (old_hash leeway : ℕ) (new new' : RefreshToken) (now later : Time) (ts ts' : List RefreshToken)
    → rotate_refresh_token old_hash new now ts ≡ some ts'
    → (t : RefreshToken) × (find_token old_hash ts ≡ some t)
      × (rotate_refresh_token old_hash new' later ts' ≡ none)
      × (find_refresh_token_with_grace old_hash leeway later ts' ≡ (
          if leb t.expires_at later
          then expired
          else if leb later (now + leeway * 1000)
          then in_grace
          else reused))
unfolding rotate_refresh_token find_refresh_token_with_grace
rotate_refresh_token-once old_hash leeway new new' now later ts ts' e =
    elim (Option-cases (find_token old_hash ts)) [
      | inl missing ↦ ground arith
      | inr (t, found) ↦
          let there = rotated old_hash new t now ts ts' found (ground arith) in
          (t, found, ground arith, ground arith)
    ]
