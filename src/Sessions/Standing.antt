-- ===== src/Sessions/Standing.antt =====
-- src/modules/auth/auth.repository.ts: the refresh tokens, seen as the sessions that stand.
use payment_wallet_system.Prelude.{
  ℕ, ◌<◌, ◌≡◌, ◌⊎◌, refl, sym, ap, ◌∙◌, subst, Option, none, some, inl, inr, Bool, true, false,
  Bool-cases, Option-cases, arith, ltb, is_none, if◌then◌else◌, ◌++◌, [], ◌∷◌, List, ◌==◌,
}
use payment_wallet_system.Db.Schema.{Uuid, Time}
use payment_wallet_system.Db.Query.{Every}
use payment_wallet_system.Db.Table.{
  Distinct, find_unique, replace, find_unique-column, find_unique-replace, find_unique-snoc,
  find_unique-snoc_old,
}
use payment_wallet_system.Session.{
  RefreshToken, find_token, revoked, create_token, revoke_where, delete_batch,
}

-- A session: whose it is, and when it expires.
pub record Session : Type 0 where
  pub user_id : Uuid
  pub expires_at : Time

-- The session that the hash of a token stands for, if it does. That it expires is a fact about a
-- session, and does not take it away.
abbrev pub Standing : Type 0
Standing = ℕ → Option Session

abbrev pub session_of : RefreshToken → Session
session_of t = record { user_id = t.user_id; expires_at = t.expires_at }

abbrev pub stands : Option RefreshToken → Option Session
stands none = none
stands (some t) = if is_none t.revoked_at then some (session_of t) else none

abbrev pub standing : List RefreshToken → Standing
standing ts hash = stands (find_token hash ts)

abbrev pub begin : ℕ → Session → Standing → Standing
begin hash session m h = if hash == h then some session else m h

abbrev pub end_session : ℕ → Standing → Standing
end_session hash m h = if hash == h then none else m h

abbrev pub unless_of : Uuid → Option Session → Option Session
unless_of user_id none = none
unless_of user_id (some s) = if s.user_id == user_id then none else some s

abbrev pub end_all : Uuid → Standing → Standing
end_all user_id m h = unless_of user_id (m h)

-- What stands is the same after a cleanup, but for what had expired.
abbrev pub Cleaned : Time → Option Session → Option Session → Type 0
Cleaned now before after =
    (after ≡ before) ⊎ ((s : Session) × (before ≡ some s) × (s.expires_at < now) × (after ≡ none))

pub created :
    (t : RefreshToken) (ts ts' : List RefreshToken)
    → create_token t ts ≡ some ts'
    → (ts' ≡ ts ++ t ∷ [])
      × (find_token t.token_hash ts ≡ none)
      × (find_unique (λ u. u.id) t.id ts ≡ none)
created t ts ts' e = elim (Option-cases (find_token t.token_hash ts)) [
  | inr (u, taken) ↦ ground arith
  | inl fresh ↦ elim (Option-cases (find_unique (λ u. u.id) t.id ts)) [
    | inr (u, taken) ↦ ground arith
    | inl new_id ↦ (ground arith, fresh, new_id)
  ]
]

pub standing-create :
    (t : RefreshToken) (ts ts' : List RefreshToken) (h : ℕ)
    → t.revoked_at ≡ none
    → create_token t ts ≡ some ts'
    → standing ts' h ≡ begin t.token_hash (session_of t) (standing ts) h
standing-create t ts ts' h fresh e =
    let (written, new_hash, new_id) = created t ts ts' e in
    subst (λ us. standing us h ≡ begin t.token_hash (session_of t) (standing ts) h) (sym written)
      (elim (Option-cases (find_token h ts)) [
        | inl absent ↦
            let there = find_unique-snoc (λ u. u.token_hash) h ts t absent in
            elim (Bool-cases (t.token_hash == h)) [
              | inl hit ↦ rw there (ground arith)
              | inr miss ↦ rw there (ground arith)
            ]
        | inr (u, present) ↦
            let there = find_unique-snoc_old (λ u. u.token_hash) h ts t u present in
            elim (Bool-cases (t.token_hash == h)) [
              | inl hit ↦ ground arith
              | inr miss ↦ rw there (ground arith)
            ]
      ])

-- Revoking the token that a hash finds.
pub standing-replace :
    (now : Time) (k : ℕ) (old : RefreshToken) (ts : List RefreshToken) (h : ℕ)
    → find_token k ts ≡ some old
    → standing (replace (λ t. t.token_hash) k (revoked now old) ts) h
      ≡ end_session k (standing ts) h
standing-replace now k old ts h f =
    let at_key = find_unique-column (λ t. t.token_hash) k ts old f in
    let there = find_unique-replace (λ t. t.token_hash) h k (revoked now old) old ts at_key f in
    elim (Bool-cases (k == h)) [
      | inl hit ↦ rw there (ground arith)
      | inr miss ↦ rw there (ground arith)
    ]

pub standing-revoke_where :
    (now : Time) (p : RefreshToken → Bool) (ts : List RefreshToken) (h : ℕ) (t : RefreshToken)
    → find_token h ts ≡ some t
    → standing (revoke_where p now ts) h ≡ (if p t then none else standing ts h)
unfolding find_unique revoke_where
standing-revoke_where now p [] h t f = ground arith
standing-revoke_where now p (x ∷ ts) h t f = ground (arith, standing-revoke_where now p ts h t)

apart_none :
    (k h : ℕ) (ts : List RefreshToken)
    → (k == h) ≡ true
    → Every (λ t. (k == t.token_hash) ≡ false) ts
    → find_token h ts ≡ none
unfolding find_unique
apart_none k h [] e a = refl
apart_none k h (t ∷ ts) e a = let apart = a.0 in let rest = apart_none k h ts e a.1 in ground arith

none-delete_batch :
    (n : ℕ) (now : Time) (ts : List RefreshToken) (h : ℕ)
    → find_token h ts ≡ none
    → find_token h (delete_batch n now ts) ≡ none
unfolding find_unique delete_batch
none-delete_batch ℕ.zero now ts h e = e
none-delete_batch (ℕ.suc n) now [] h e = refl
none-delete_batch (ℕ.suc n) now (t ∷ ts) h e =
    ground (arith, none-delete_batch n now ts h, none-delete_batch (ℕ.suc n) now ts h)

expired_row :
    (now : Time) (t : RefreshToken) (ts : List RefreshToken) (h n : ℕ)
    → ltb t.expires_at now ≡ true
    → (t.token_hash == h) ≡ true
    → Distinct (λ u. u.token_hash) (t ∷ ts)
    → Cleaned now (standing (t ∷ ts) h) (standing (delete_batch (ℕ.suc n) now (t ∷ ts)) h)
unfolding find_unique delete_batch
expired_row now t ts h n over hit d =
    let gone = none-delete_batch n now ts h (apart_none t.token_hash h ts hit d.0) in
    elim (Bool-cases (is_none t.revoked_at)) [
      | inl held ↦ inr (session_of t, rw (hit, held) refl, ground arith, rw (over, gone) refl)
      | inr ended ↦ inl (rw (over, hit, ended, gone) refl)
    ]

pub standing-delete_batch :
    (n : ℕ) (now : Time) (ts : List RefreshToken) (h : ℕ)
    → Distinct (λ t. t.token_hash) ts
    → Cleaned now (standing ts h) (standing (delete_batch n now ts) h)
unfolding find_unique delete_batch
standing-delete_batch ℕ.zero now ts h d = inl refl
standing-delete_batch (ℕ.suc n) now [] h d = inl refl
standing-delete_batch (ℕ.suc n) now (t ∷ ts) h d = elim (Bool-cases (ltb t.expires_at now)) [
  | inl over ↦ elim (Bool-cases (t.token_hash == h)) [
    | inl hit ↦ expired_row now t ts h n over hit d
    | inr miss ↦ rw (over, miss) (standing-delete_batch n now ts h d.1)
  ]
  | inr kept ↦ elim (Bool-cases (t.token_hash == h)) [
    | inl hit ↦ inl (rw (kept, hit) refl)
    | inr miss ↦ rw (kept, miss) (standing-delete_batch (ℕ.suc n) now ts h d.1)
  ]
]

-- Revoking a token that is found by its id and by its hash.
pub standing-evict :
    (now : Time) (k : Uuid) (old : RefreshToken) (ts : List RefreshToken) (h : ℕ)
    → find_unique (λ t. t.id) k ts ≡ some old
    → find_token old.token_hash ts ≡ some old
    → standing (replace (λ t. t.id) k (revoked now old) ts) h
      ≡ end_session old.token_hash (standing ts) h
unfolding find_unique replace
standing-evict now k old [] h f g = ground arith
standing-evict now k old (x ∷ ts) h f g = elim (Bool-cases (x.id == k)) [
  | inl hit ↦ ground arith
  | inr miss ↦ elim (Bool-cases (x.token_hash == old.token_hash)) [
    | inl same ↦
        let row : x ≡ old = ground arith in
        let key : x.id ≡ k = ap (λ t. t.id) row ∙ find_unique-column (λ t. t.id) k (x ∷ ts) old f in
        ground arith
    | inr apart ↦ ground (arith, standing-evict now k old ts h)
  ]
]
