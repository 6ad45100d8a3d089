-- ===== src/Sessions/Histories.antt =====
-- src/modules/auth/auth.repository.ts: any calls on refresh tokens, one after another.
use payment_wallet_system.Prelude.{
  ℕ, ◌≤◌, ◌≡◌, refl, sym, subst, none, some, inl, inr, Bool, false, Bool-cases, Option-cases, arith,
  ltb, leb, is_none, ◌&&◌, [], ◌∷◌, List, ◌==◌,
}
use payment_wallet_system.Db.Schema.{Uuid, Time}
use payment_wallet_system.Db.Query.{Every, where_rows, order_by, Every-where_of, Every-order_by}
use payment_wallet_system.Db.Table.{
  Distinct, Distinct-found, Distinct-snoc, Distinct-replace, find_unique, replace, find_unique_self,
}
use payment_wallet_system.Session.{
  RefreshToken, find_token, is_live, live_count, evict, revoked, create_token,
  create_session_atomic, rotate_refresh_token, revoke_refresh_token, revoke_all_user_tokens,
  revoke_where, delete_batch,
}
use payment_wallet_system.Sessions.Standing.{Standing, standing, created}
use payment_wallet_system.Sessions.Refinement.{
  Order, Step, creates, rotates, revokes, revokes_all, deletes, Meaning, Step-Meaning,
}

-- The calls from the empty table on, the last one first, its time, and the tokens that they leave.
pub data Run : Time → List Order → List RefreshToken → Type 0 where
  starts : (now : Time) → Run now [] []
  steps :
      {before now : Time} {orders : List Order} {order : Order} {ts ts' : List RefreshToken}
      → Run before orders ts
      → before ≤ now
      → Step now ts ts' order
      → Run now (order ∷ orders) ts'

-- Sessions as their users see them, after the same calls, each at its time: at first there are none,
-- and only a call changes them.
pub data Lived : Time → List Order → Standing → Type 0 where
  nobody : (now : Time) {m : Standing} → ((h : ℕ) → m h ≡ none) → Lived now [] m
  lives :
      {before now : Time} {orders : List Order} {order : Order} {m m' : Standing}
      → Lived before orders m
      → before ≤ now
      → Meaning now m m' order
      → Lived now (order ∷ orders) m'

module _ (column : RefreshToken → ℕ)
    (kept : (now : Time) (t : RefreshToken) → column (revoked now t) ≡ column t) where
  apart_revoke :
      (k now : ℕ) (p : RefreshToken → Bool) (ts : List RefreshToken)
      → Every (λ t. (k == column t) ≡ false) ts
      → Every (λ t. (k == column t) ≡ false) (revoke_where p now ts)
  unfolding revoke_where
  apart_revoke k now p [] a = tt
  apart_revoke k now p (t ∷ ts) a = elim (Bool-cases (p t && is_none t.revoked_at)) [
    | inl hit ↦
        rw hit (subst (λ j. (k == j) ≡ false) (sym (kept now t)) a.0, apart_revoke k now p ts a.1)
    | inr miss ↦ rw miss (a.0, apart_revoke k now p ts a.1)
  ]

  Distinct-revoke_where :
      (now : Time) (p : RefreshToken → Bool) (ts : List RefreshToken)
      → Distinct column ts
      → Distinct column (revoke_where p now ts)
  unfolding revoke_where
  Distinct-revoke_where now p [] d = tt
  Distinct-revoke_where now p (t ∷ ts) d = elim (Bool-cases (p t && is_none t.revoked_at)) [
    | inl hit ↦ rw hit (
      subst (λ j. Every (λ u. (j == column u) ≡ false) (revoke_where p now ts)) (sym (kept now t))
          (apart_revoke (column t) now p ts d.0),
      Distinct-revoke_where now p ts d.1,
    )
    | inr miss ↦ rw miss (apart_revoke (column t) now p ts d.0, Distinct-revoke_where now p ts d.1)
  ]

  apart_delete :
      (k now n : ℕ) (ts : List RefreshToken)
      → Every (λ t. (k == column t) ≡ false) ts
      → Every (λ t. (k == column t) ≡ false) (delete_batch n now ts)
  unfolding delete_batch
  apart_delete k now ℕ.zero ts a = a
  apart_delete k now (ℕ.suc n) [] a = tt
  apart_delete k now (ℕ.suc n) (t ∷ ts) a = elim (Bool-cases (ltb t.expires_at now)) [
    | inl over ↦ rw over (apart_delete k now n ts a.1)
    | inr stays ↦ rw stays (a.0, apart_delete k now (ℕ.suc n) ts a.1)
  ]

  Distinct-delete_batch :
      (now n : ℕ) (ts : List RefreshToken)
      → Distinct column ts
      → Distinct column (delete_batch n now ts)
  unfolding delete_batch
  Distinct-delete_batch now ℕ.zero ts d = d
  Distinct-delete_batch now (ℕ.suc n) [] d = tt
  Distinct-delete_batch now (ℕ.suc n) (t ∷ ts) d = elim (Bool-cases (ltb t.expires_at now)) [
    | inl over ↦ rw over (Distinct-delete_batch now n ts d.1)
    | inr stays ↦
        rw stays
          (apart_delete (column t) now (ℕ.suc n) ts d.0, Distinct-delete_batch now (ℕ.suc n) ts d.1)
  ]

-- No two tokens have the same id, or the same hash.
abbrev pub AreDistinct : List RefreshToken → Type 0
AreDistinct ts = Distinct (λ t. t.id) ts × Distinct (λ t. t.token_hash) ts

create-AreDistinct :
    (t : RefreshToken) (ts ts' : List RefreshToken)
    → AreDistinct ts
    → create_token t ts ≡ some ts'
    → AreDistinct ts'
create-AreDistinct t ts ts' d e =
    let (written, new_hash, new_id) = created t ts ts' e in
    subst AreDistinct (sym written) (
      Distinct-snoc (λ u. u.id) ts t d.0 new_id,
      Distinct-snoc (λ u. u.token_hash) ts t d.1 new_hash,
    )

evict-AreDistinct :
    (user_id : Uuid) (now : Time) (live ts : List RefreshToken)
    → Every (λ t. find_unique (λ v. v.id) t.id ts ≡ some t) live
    → AreDistinct ts
    → AreDistinct (evict now live ts)
evict-AreDistinct user_id now [] ts f d = d
evict-AreDistinct user_id now (t ∷ rest) ts f d = (
  Distinct-replace (λ v. v.id) (λ v. v.id) (revoked now t) t t.id ts f.0 refl d.0,
  Distinct-replace (λ v. v.id) (λ v. v.token_hash) (revoked now t) t t.id ts f.0 refl d.1,
)

creates-AreDistinct :
    (now : Time) (new : RefreshToken) (max_sessions : ℕ) (ts ts' : List RefreshToken)
    → AreDistinct ts
    → create_session_atomic new max_sessions now ts ≡ some ts'
    → AreDistinct ts'
unfolding create_session_atomic
creates-AreDistinct now new max_sessions ts ts' d e =
    let before : RefreshToken → RefreshToken → Bool = λ x y. ltb x.created_at y.created_at in
    let live = order_by before (where_rows (is_live new.user_id now) ts) in
    elim (Bool-cases (leb max_sessions (live_count new.user_id now ts))) [
      | inl full ↦
          create-AreDistinct new (evict now live ts) ts'
            (evict-AreDistinct new.user_id now live ts
              (Every-order_by _ before _
                (Every-where_of _ _ ts (Distinct-found (λ t. t.id) ts d.0)))
              d)
            (ground arith)
      | inr room ↦ create-AreDistinct new ts ts' d (ground arith)
    ]

rotates-AreDistinct :
    (now : Time) (old_hash : ℕ) (new : RefreshToken) (ts ts' : List RefreshToken)
    → AreDistinct ts
    → rotate_refresh_token old_hash new now ts ≡ some ts'
    → AreDistinct ts'
unfolding rotate_refresh_token
rotates-AreDistinct now old_hash new ts ts' d e = elim (Option-cases (find_token old_hash ts)) [
  | inl missing ↦ ground arith
  | inr (t, found) ↦
      let self = find_unique_self (λ v. v.token_hash) old_hash ts t found in
      let put = replace (λ v. v.token_hash) t.token_hash (revoked now t) ts in
      create-AreDistinct new put ts'
        (
          Distinct-replace (λ v. v.token_hash) (λ v. v.id) (revoked now t) t t.token_hash ts self
              refl d.0,
          Distinct-replace (λ v. v.token_hash) (λ v. v.token_hash) (revoked now t) t t.token_hash ts
              self refl d.1,
        )
        (ground arith)
]

revoke_where-AreDistinct :
    (now : Time) (p : RefreshToken → Bool) (ts : List RefreshToken)
    → AreDistinct ts
    → AreDistinct (revoke_where p now ts)
revoke_where-AreDistinct now p ts d = (
  Distinct-revoke_where (λ t. t.id) (λ now t. refl) now p ts d.0,
  Distinct-revoke_where (λ t. t.token_hash) (λ now t. refl) now p ts d.1,
)

Step-AreDistinct :
    (now : Time) (ts ts' : List RefreshToken) (order : Order)
    → AreDistinct ts
    → Step now ts ts' order
    → AreDistinct ts'
unfolding revoke_refresh_token revoke_all_user_tokens
Step-AreDistinct now ts ts' _ d (creates new max_sessions fresh e) =
    creates-AreDistinct now new max_sessions ts ts' d e
Step-AreDistinct now ts ts' _ d (rotates old_hash new fresh e) =
    rotates-AreDistinct now old_hash new ts ts' d e
Step-AreDistinct now ts ts' _ d (revokes hash e) =
    subst AreDistinct (sym e) (revoke_where-AreDistinct now (λ t. t.token_hash == hash) ts d)
Step-AreDistinct now ts ts' _ d (revokes_all user_id e) =
    subst AreDistinct (sym e) (revoke_where-AreDistinct now (λ t. t.user_id == user_id) ts d)
Step-AreDistinct now ts ts' _ d (deletes n e) = subst AreDistinct (sym e) (
  Distinct-delete_batch (λ t. t.id) (λ now t. refl) now n ts d.0,
  Distinct-delete_batch (λ t. t.token_hash) (λ now t. refl) now n ts d.1,
)

Run-Lived_distinct :
    (now : Time) (orders : List Order) (ts : List RefreshToken)
    → Run now orders ts
    → AreDistinct ts × Lived now orders (standing ts)
unfolding find_unique
Run-Lived_distinct now _ _ (starts _) = ((tt, tt), nobody now (λ h. refl))
Run-Lived_distinct now _ ts (steps {before = before} {order = order} {ts = us} r le s) =
    let (d, lived) = Run-Lived_distinct before _ us r in
    (Step-AreDistinct now us ts order d s, lives lived le (Step-Meaning now us ts order d.0 d.1 s))

-- The table of refresh tokens implements sessions: when calls that create, rotate, revoke and delete
-- tokens follow one another from the empty table, with a clock that does not go back and new tokens
-- that are not revoked, then the sessions for which the hashes of tokens stand at the end, each with
-- its user and its expiry, are what the same calls leave of sessions, which only a call changes. A
-- creation begins a session under a hash that had none, perhaps in the place of one of the same user
-- that has not expired; a rotation begins one in the place of the old one, which stood; a revocation
-- ends one, or all of a user, and no other; and a cleanup takes away only what has expired.
pub Run-Lived :
    (now : Time) (orders : List Order) (ts : List RefreshToken)
    → Run now orders ts
    → Lived now orders (standing ts)
Run-Lived now orders ts r = (Run-Lived_distinct now orders ts r).1
