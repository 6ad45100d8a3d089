-- ===== src/Sessions/Bound.antt =====
-- src/modules/auth/auth.repository.ts: the number of live sessions of a user.
use payment_wallet_system.Prelude.{
  ℕ, ◌+◌, ◌≤◌, ◌≡◌, refl, sym, some, inl, inr, Bool, true, Bool-cases, arith, ltb, leb, ◌++◌, [],
  ◌∷◌, List, subst,
}
use payment_wallet_system.Prelude.Lists.{length}
use payment_wallet_system.Db.Schema.{Uuid, Time}
use payment_wallet_system.Db.Table.{find_unique, replace, Distinct, Distinct-found}
use payment_wallet_system.Db.Query.{
  Every, where_rows, insert_by, order_by, Every-where_of, Every-where_rows, Every-order_by,
}
use payment_wallet_system.Session.{
  RefreshToken, is_live, live_count, evict, revoked, create_session_atomic,
}

-- No two tokens have the same id.
abbrev pub DistinctTokens : List RefreshToken → Type 0
DistinctTokens = Distinct (λ t. t.id)

-- Revoking a live token takes one from the count.
revoked_count :
    (u : Uuid) (now k : ℕ) (old : RefreshToken) (ts : List RefreshToken)
    → find_unique (λ v. v.id) k ts ≡ some old
    → is_live u now old ≡ true
    → live_count u now (replace (λ v. v.id) k (revoked now old) ts) + 1 ≡ live_count u now ts
unfolding find_unique replace live_count
revoked_count u now k old [] f h = ground arith
revoked_count u now k old (t ∷ ts) f h = ground (arith, revoked_count u now k old ts)

added_count :
    (u : Uuid) (now : Time) (t : RefreshToken) (ts : List RefreshToken)
    → live_count u now (ts ++ t ∷ []) ≤ live_count u now ts + 1
unfolding live_count
added_count u now t [] = ground arith
added_count u now t (x ∷ ts) = ground (arith, added_count u now t ts)

length-insert_by :
    (before : RefreshToken → RefreshToken → Bool) (t : RefreshToken) (ts : List RefreshToken)
    → length (insert_by before t ts) ≡ length ts + 1
unfolding insert_by
length-insert_by before t [] = omega arith
length-insert_by before t (x ∷ ts) = ground (arith, length-insert_by before t ts)

length-order_by :
    (before : RefreshToken → RefreshToken → Bool) (ts : List RefreshToken)
    → length (order_by before ts) ≡ length ts
unfolding order_by
length-order_by before [] = refl
length-order_by before (t ∷ ts) =
    omega (arith, length-insert_by before t (order_by before ts), length-order_by before ts)

-- One live session less, if there was one.
evicted_count :
    (u : Uuid) (now : Time) (live ts : List RefreshToken)
    → Every (λ t. is_live u now t ≡ true) live
    → Every (λ t. find_unique (λ v. v.id) t.id ts ≡ some t) live
    → 1 ≤ length live
    → live_count u now (evict now live ts) + 1 ≡ live_count u now ts
evicted_count u now [] ts a f h = absurd (omega (arith, h))
evicted_count u now (t ∷ rest) ts a f h = revoked_count u now t.id t ts f.0 a.0

counted :
    (u : Uuid) (now : Time) (ts : List RefreshToken)
    → length (where_rows (is_live u now) ts) ≡ live_count u now ts
unfolding live_count
counted u now ts = refl

-- If a user has no more live sessions than the bound, which is not zero, then a new session leaves
-- them with no more than the bound. No two tokens have the same id.
pub create_session_atomic-bound :
    (new : RefreshToken) (max_sessions : ℕ) (now : Time) (ts ts' : List RefreshToken)
    → DistinctTokens ts
    → 1 ≤ max_sessions
    → live_count new.user_id now ts ≤ max_sessions
    → create_session_atomic new max_sessions now ts ≡ some ts'
    → live_count new.user_id now ts' ≤ max_sessions
unfolding create_session_atomic
create_session_atomic-bound new max_sessions now ts ts' d m b e =
    elim (Bool-cases (leb max_sessions (live_count new.user_id now ts))) [
      | inl full ↦
          let at_bound : max_sessions ≤ live_count new.user_id now ts = ground arith in
          let before : RefreshToken → RefreshToken → Bool = λ x y. ltb x.created_at y.created_at in
          let live = order_by before (where_rows (is_live new.user_id now) ts) in
          let less =
            evicted_count new.user_id now live ts
              (Every-order_by _ before _ (Every-where_rows (is_live new.user_id now) ts))
              (Every-order_by _ before _ (Every-where_of _ _ ts (Distinct-found (λ t. t.id) ts d)))
              (omega (
                arith,
                length-order_by before (where_rows (is_live new.user_id now) ts),
                counted new.user_id now ts,
              )) in
          let more = added_count new.user_id now new (evict now live ts) in
          let written : ts' ≡ evict now live ts ++ new ∷ [] = ground arith in
          subst (λ us. live_count new.user_id now us ≤ max_sessions) (sym written)
            (omega (arith, less, more))
      | inr room ↦
          let more = added_count new.user_id now new ts in
          let written : ts' ≡ ts ++ new ∷ [] = ground arith in
          subst (λ us. live_count new.user_id now us ≤ max_sessions) (sym written)
            (ground (arith, more))
    ]
