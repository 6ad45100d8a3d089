-- ===== src/Sessions/Cleanup.antt =====
-- src/modules/auth/auth.repository.ts: the loop that deletes expired tokens.
use payment_wallet_system.Prelude.{
  ℕ, ◌+◌, ◌-◌, ◌≤◌, ◌<◌, ◌≡◌, refl, some, inl, inr, Bool, not, Bool-cases, arith, ltb, [], ◌∷◌,
  List,
}
use payment_wallet_system.Prelude.Lists.{length}
use payment_wallet_system.Db.Schema.{Time}
use payment_wallet_system.Db.Query.{where_rows}
use payment_wallet_system.Session.{RefreshToken, delete_batch, delete_all_expired_tokens}

abbrev pub is_kept : Time → RefreshToken → Bool
is_kept now t = not (ltb t.expires_at now)

-- A batch deletes no more than its size, and if less then all that has expired.
record Batch (n : ℕ) (now : Time) (ts left : List RefreshToken) : Type 0 where
  same : where_rows (is_kept now) left ≡ where_rows (is_kept now) ts
  shorter : length left ≤ length ts
  bounded : length ts ≤ length left + n
  short : length ts < length left + n → left ≡ where_rows (is_kept now) ts

delete_batch-Batch :
    (n : ℕ) (now : Time) (ts : List RefreshToken) → Batch n now ts (delete_batch n now ts)
unfolding delete_batch where_rows
delete_batch-Batch ℕ.zero now ts = record {
  same = refl;
  shorter = omega arith;
  bounded = omega arith;
  short = λ h. absurd (omega (arith, h));
}
delete_batch-Batch (ℕ.suc n) now [] = record {
  same = refl;
  shorter = omega arith;
  bounded = omega arith;
  short = λ h. refl;
}
delete_batch-Batch (ℕ.suc n) now (t ∷ ts) = elim (Bool-cases (ltb t.expires_at now)) [
  | inl over ↦
      let rest = delete_batch-Batch n now ts in
      let same = rest.same in
      let shorter = rest.shorter in
      let bounded = rest.bounded in
      let short = rest.short in
      record {
        same = ground arith;
        shorter = ground arith;
        bounded = ground arith;
        short = λ h. ground arith;
      }
  | inr good ↦
      let rest = delete_batch-Batch (ℕ.suc n) now ts in
      let same = rest.same in
      let shorter = rest.shorter in
      let bounded = rest.bounded in
      let short = rest.short in
      record {
        same = ground arith;
        shorter = ground arith;
        bounded = ground arith;
        short = λ h. ground arith;
      }
]

-- With more fuel than there are tokens and batches that are not empty, the cleanup ends: it leaves
-- the tokens that have not expired, in their order, and counts the others.
pub delete_all_expired_tokens_lem :
    (fuel batch_size : ℕ) (now : Time) (ts : List RefreshToken)
    → 1 ≤ batch_size
    → length ts < fuel
    → (total : ℕ) × (delete_all_expired_tokens fuel batch_size now ts
        ≡ some (where_rows (is_kept now) ts, total))
      × (length (where_rows (is_kept now) ts) + total ≡ length ts)
unfolding delete_all_expired_tokens
delete_all_expired_tokens_lem ℕ.zero batch_size now ts b h = absurd (omega (arith, h))
delete_all_expired_tokens_lem (ℕ.suc fuel) batch_size now ts b h =
    let left = delete_batch batch_size now ts in
    let batch = delete_batch-Batch batch_size now ts in
    let same = batch.same in
    let shorter = batch.shorter in
    let bounded = batch.bounded in
    let short = batch.short in
    elim (Bool-cases (ltb (length ts - length left) batch_size)) [
      | inl last ↦ (length ts - length left, ground arith, ground arith)
      | inr full ↦
          let (total, e, l) =
            delete_all_expired_tokens_lem fuel batch_size now left b (ground arith) in
          (length ts - length left + total, ground arith, ground arith)
    ]
