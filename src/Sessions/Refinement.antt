-- ===== src/Sessions/Refinement.antt =====
-- src/modules/auth/auth.repository.ts: what the calls on refresh tokens are for, which is that sessions
-- begin and end.
use payment_wallet_system.Prelude.{
  ℕ, ◌<◌, ◌≡◌, refl, sym, subst, ap, ◌∙◌, none, some, inl, inr, ◌⊎◌, Bool, true, Bool-cases,
  Option-cases, arith, ltb, leb, if◌then◌else◌, [], ◌∷◌, List, ◌==◌,
}
use payment_wallet_system.Db.Schema.{Uuid, Time}
use payment_wallet_system.Db.Query.{
  Every, where_rows, order_by, Every-where_of, Every-where_rows, Every-order_by,
}
use payment_wallet_system.Db.Table.{
  Distinct, Distinct-found, find_unique, replace, find_unique-column, find_unique_self,
}
use payment_wallet_system.Session.{
  RefreshToken, find_token, is_live, live_count, evict, revoked, create_token,
  create_session_atomic, rotate_refresh_token, revoke_refresh_token, revoke_all_user_tokens,
  revoke_where, delete_batch,
}
use payment_wallet_system.Sessions.Standing.{
  Standing, stands, standing, Session, session_of, Cleaned, begin, end_session, end_all, created,
  standing-create, standing-replace, standing-revoke_where, standing-delete_batch, standing-evict,
}

-- A call on the table of tokens, by what its caller says of sessions.
pub data Order : Type 0 where
  open_session : (hash : ℕ) (session : Session) → Order
  renew_session : (old_hash hash : ℕ) (session : Session) → Order
  close_session : (hash : ℕ) → Order
  close_sessions : (user_id : Uuid) → Order
  clean_up : Order

-- One call at a time: a token is created, rotated or revoked, all tokens of a user are revoked, or a
-- batch of rows that have expired is deleted.
pub data Step (now : Time) (ts ts' : List RefreshToken) : Order → Type 0 where
  creates :
      (new : RefreshToken) (max_sessions : ℕ)
      → new.revoked_at ≡ none
      → create_session_atomic new max_sessions now ts ≡ some ts'
      → Step now ts ts' (open_session new.token_hash (session_of new))
  rotates :
      (old_hash : ℕ) (new : RefreshToken)
      → new.revoked_at ≡ none
      → rotate_refresh_token old_hash new now ts ≡ some ts'
      → Step now ts ts' (renew_session old_hash new.token_hash (session_of new))
  revokes :
      (hash : ℕ) → ts' ≡ revoke_refresh_token hash now ts → Step now ts ts' (close_session hash)
  revokes_all :
      (user_id : Uuid)
      → ts' ≡ revoke_all_user_tokens user_id now ts
      → Step now ts ts' (close_sessions user_id)
  deletes : (batch_size : ℕ) → ts' ≡ delete_batch batch_size now ts → Step now ts ts' clean_up

-- What a call at a time means for the sessions. One begins under a hash that had none, perhaps in the
-- place of another of the same user that has not expired, or of the one that is renewed; one ends, and
-- no other; those of a user end, and no others; or some that have expired are forgotten.
pub data Meaning (now : Time) (m m' : Standing) : Order → Type 0 where
  begins :
      (hash : ℕ) (session : Session)
      → m hash ≡ none
      → ((h : ℕ) → m' h ≡ begin hash session m h)
      → Meaning now m m' (open_session hash session)
  replaces :
      (victim hash : ℕ) (other session : Session)
      → m victim ≡ some other
      → other.user_id ≡ session.user_id
      → now < other.expires_at
      → end_session victim m hash ≡ none
      → ((h : ℕ) → m' h ≡ begin hash session (end_session victim m) h)
      → Meaning now m m' (open_session hash session)
  renews :
      (old hash : ℕ) (replaced session : Session)
      → m old ≡ some replaced
      → end_session old m hash ≡ none
      → ((h : ℕ) → m' h ≡ begin hash session (end_session old m) h)
      → Meaning now m m' (renew_session old hash session)
  ends :
      (hash : ℕ) → ((h : ℕ) → m' h ≡ end_session hash m h) → Meaning now m m' (close_session hash)
  all_end :
      (user_id : Uuid)
      → ((h : ℕ) → m' h ≡ end_all user_id m h)
      → Meaning now m m' (close_sessions user_id)
  forgets : ((h : ℕ) → Cleaned now (m h) (m' h)) → Meaning now m m' clean_up

begins-Meaning :
    (now : Time) (new : RefreshToken) (ts ts' : List RefreshToken)
    → new.revoked_at ≡ none
    → create_token new ts ≡ some ts'
    → Meaning now (standing ts) (standing ts') (open_session new.token_hash (session_of new))
begins-Meaning now new ts ts' fresh e =
    let (written, new_hash, new_id) = created new ts ts' e in
    begins new.token_hash (session_of new) (ap stands new_hash)
      (λ h. standing-create new ts ts' h fresh e)

-- A token is created after another one has been revoked.
after_end :
    (now : Time) (k : ℕ) (new : RefreshToken) (ts us ts' : List RefreshToken)
    → new.revoked_at ≡ none
    → ((h : ℕ) → standing us h ≡ end_session k (standing ts) h)
    → create_token new us ≡ some ts'
    → (end_session k (standing ts) new.token_hash ≡ none)
      × ((h : ℕ)
          → standing ts' h ≡ begin new.token_hash (session_of new) (end_session k (standing ts)) h)
after_end now k new ts us ts' fresh same e =
    let (written, new_hash, new_id) = created new us ts' e in
    (
      sym (same new.token_hash) ∙ ap stands new_hash,
      λ h. standing-create new us ts' h fresh e ∙ begin_same h,
    )
  where
    begin_same :
        (h : ℕ)
        → begin new.token_hash (session_of new) (standing us) h
          ≡ begin new.token_hash (session_of new) (end_session k (standing ts)) h
    begin_same h = elim (Bool-cases (new.token_hash == h)) [
      | inl hit ↦ rw hit refl
      | inr miss ↦ rw miss (same h)
    ]

stands_live :
    (u : Uuid) (now : Time) (t : RefreshToken)
    → is_live u now t ≡ true
    → (stands (some t) ≡ some (session_of t)) × (t.user_id ≡ u) × (now < t.expires_at)
stands_live u now t a = (ground arith, ground arith, ground arith)

evict-Meaning :
    (now : Time) (new : RefreshToken) (live ts ts' : List RefreshToken)
    → new.revoked_at ≡ none
    → Every (λ t. is_live new.user_id now t ≡ true) live
    → Every (λ t. find_unique (λ v. v.id) t.id ts ≡ some t) live
    → Every (λ t. find_unique (λ v. v.token_hash) t.token_hash ts ≡ some t) live
    → create_token new (evict now live ts) ≡ some ts'
    → Meaning now (standing ts) (standing ts') (open_session new.token_hash (session_of new))
evict-Meaning now new [] ts ts' fresh a f g e = begins-Meaning now new ts ts' fresh e
evict-Meaning now new (t ∷ rest) ts ts' fresh a f g e =
    let (absent, same) =
      after_end now t.token_hash new ts (replace (λ v. v.id) t.id (revoked now t) ts) ts' fresh
        (λ h. standing-evict now t.id t ts h f.0 g.0) e in
    let (held, of_user, unexpired) = stands_live new.user_id now t a.0 in
    replaces t.token_hash new.token_hash (session_of t) (session_of new) (ap stands g.0 ∙ held)
      of_user unexpired absent same

creates-Meaning :
    (now : Time) (new : RefreshToken) (max_sessions : ℕ) (ts ts' : List RefreshToken)
    → Distinct (λ t. t.id) ts
    → Distinct (λ t. t.token_hash) ts
    → new.revoked_at ≡ none
    → create_session_atomic new max_sessions now ts ≡ some ts'
    → Meaning now (standing ts) (standing ts') (open_session new.token_hash (session_of new))
unfolding create_session_atomic
creates-Meaning now new max_sessions ts ts' di dh fresh e =
    let before : RefreshToken → RefreshToken → Bool = λ x y. ltb x.created_at y.created_at in
    let live = order_by before (where_rows (is_live new.user_id now) ts) in
    elim (Bool-cases (leb max_sessions (live_count new.user_id now ts))) [
      | inl full ↦
          evict-Meaning now new live ts ts' fresh
            (Every-order_by _ before _ (Every-where_rows (is_live new.user_id now) ts))
            (Every-order_by _ before _ (Every-where_of _ _ ts (Distinct-found (λ t. t.id) ts di)))
            (Every-order_by _ before _
              (Every-where_of _ _ ts (Distinct-found (λ t. t.token_hash) ts dh)))
            (ground arith)
      | inr room ↦ begins-Meaning now new ts ts' fresh (ground arith)
    ]

rotates-Meaning :
    (now : Time) (old_hash : ℕ) (new : RefreshToken) (ts ts' : List RefreshToken)
    → new.revoked_at ≡ none
    → rotate_refresh_token old_hash new now ts ≡ some ts'
    → Meaning now
        (standing ts)
        (standing ts')
        (renew_session old_hash new.token_hash (session_of new))
unfolding rotate_refresh_token
rotates-Meaning now old_hash new ts ts' fresh e = elim (Option-cases (find_token old_hash ts)) [
  | inl missing ↦ ground arith
  | inr (t, found) ↦
      let key = find_unique-column (λ v. v.token_hash) old_hash ts t found in
      let held : standing ts old_hash ≡ some (session_of t) = ground arith in
      let written : create_token new (replace (λ v. v.token_hash) t.token_hash (revoked now t) ts)
          ≡ some ts' =
        ground arith in
      let (absent, same) =
        after_end now old_hash new ts (replace (λ v. v.token_hash) t.token_hash (revoked now t) ts)
          ts' fresh
          (λ h.
            subst
              (λ k.
                standing (replace (λ v. v.token_hash) t.token_hash (revoked now t) ts) h
                ≡ end_session k (standing ts) h)
              key
              (standing-replace now t.token_hash t ts h
                (find_unique_self (λ v. v.token_hash) old_hash ts t found)))
          written in
      renews old_hash new.token_hash (session_of t) (session_of new) held absent same
]

revoked_stays :
    (now : Time) (p : RefreshToken → Bool) (ts : List RefreshToken) (h : ℕ)
    → find_token h ts ≡ none
    → find_token h (revoke_where p now ts) ≡ none
unfolding find_unique revoke_where
revoked_stays now p [] h e = refl
revoked_stays now p (t ∷ ts) h e = ground (arith, revoked_stays now p ts h)

revoke_where-agrees :
    (now : Time) (p : RefreshToken → Bool) (ts : List RefreshToken) (h : ℕ)
    → (find_token h ts ≡ none) × (standing (revoke_where p now ts) h ≡ standing ts h)
      ⊎ (t : RefreshToken) × (find_token h ts ≡ some t)
        × (standing (revoke_where p now ts) h ≡ (if p t then none else standing ts h))
revoke_where-agrees now p ts h = elim (Option-cases (find_token h ts)) [
  | inl absent ↦ inl (absent, ap stands (revoked_stays now p ts h absent) ∙ sym (ap stands absent))
  | inr (t, found) ↦ inr (t, found, standing-revoke_where now p ts h t found)
]

revokes-Meaning :
    (now : Time) (hash : ℕ) (ts : List RefreshToken) (h : ℕ)
    → standing (revoke_refresh_token hash now ts) h ≡ end_session hash (standing ts) h
unfolding revoke_refresh_token
revokes-Meaning now hash ts h = elim (revoke_where-agrees now (λ t. t.token_hash == hash) ts h) [
  | inl (absent, same) ↦ ground arith
  | inr (t, found, same) ↦
      let key = find_unique-column (λ v. v.token_hash) h ts t found in ground arith
]

revokes_all-Meaning :
    (now : Time) (user_id : Uuid) (ts : List RefreshToken) (h : ℕ)
    → standing (revoke_all_user_tokens user_id now ts) h ≡ end_all user_id (standing ts) h
unfolding revoke_all_user_tokens
revokes_all-Meaning now user_id ts h =
    elim (revoke_where-agrees now (λ t. t.user_id == user_id) ts h) [
      | inl (absent, same) ↦ ground arith
      | inr (t, found, same) ↦ ground arith
    ]

-- A call on tokens of which no two have the same id or the same hash.
pub Step-Meaning :
    (now : Time) (ts ts' : List RefreshToken) (order : Order)
    → Distinct (λ t. t.id) ts
    → Distinct (λ t. t.token_hash) ts
    → Step now ts ts' order
    → Meaning now (standing ts) (standing ts') order
Step-Meaning now ts ts' _ di dh (creates new max_sessions fresh e) =
    creates-Meaning now new max_sessions ts ts' di dh fresh e
Step-Meaning now ts ts' _ di dh (rotates old_hash new fresh e) =
    rotates-Meaning now old_hash new ts ts' fresh e
Step-Meaning now ts ts' _ di dh (revokes hash e) =
    ends hash (λ h. ap (λ us. standing us h) e ∙ revokes-Meaning now hash ts h)
Step-Meaning now ts ts' _ di dh (revokes_all user_id e) =
    all_end user_id (λ h. ap (λ us. standing us h) e ∙ revokes_all-Meaning now user_id ts h)
Step-Meaning now ts ts' _ di dh (deletes batch_size e) = forgets (λ h.
    subst (λ us. Cleaned now (standing ts h) (standing us h)) (sym e)
      (standing-delete_batch batch_size now ts h dh))
