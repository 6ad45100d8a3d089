-- ===== src/Auth/Calls.antt =====
-- A call of a service of src/modules/auth or src/modules/user: it goes from one state of the database
-- and of Redis to the next, and a throw keeps what was written before it.
use payment_wallet_system.Prelude.{◌≡◌, refl, ◌⊎◌, inl, inr, Option, none, some, Bool, true, false}
use payment_wallet_system.Db.Schema.{Db}
use payment_wallet_system.Db.Tx.{Action, Result, ok, err, Exception}

pub record Server (R : Type 0) : Type 0 where
  pub db : Db
  pub redis : R

abbrev pub Call : Type 0 → Type 0 → Type 0
Call R A = Server R → Result A × Server R

module _ {R : Type 0} where
  abbrev pub continue : {A B : Type 0} → (A → Call R B) → Result A × Server R → Result B × Server R
  continue f (ok a, s) = f a s
  continue f (err e, s) = (err e, s)

  infixl 5 ◌>>=◌ ◌>>◌
  abbrev pub ◌>>=◌ : {A B : Type 0} → Call R A → (A → Call R B) → Call R B
  ◌>>=◌ m f s = continue f (m s)

  abbrev pub ◌>>◌ : {A B : Type 0} → Call R A → Call R B → Call R B
  ◌>>◌ m k s = continue (λ _. k) (m s)

  abbrev pub give : {A : Type 0} → A → Call R A
  give a s = (ok a, s)

  abbrev pub raise : {A : Type 0} → Exception → Call R A
  raise e s = (err e, s)

  abbrev pub give_or : {A : Type 0} → Exception → Option A → Call R A
  give_or e none = raise e
  give_or e (some a) = give a

  abbrev pub settled_call : {A : Type 0} → Result A → Call R A
  settled_call r s = (r, s)

  -- Goes on if the test holds.
  abbrev pub check : Bool → Exception → Call R (Unit {0})
  check true e s = (ok tt, s)
  check false e s = (err e, s)

  abbrev pub read_db : {A : Type 0} → (Db → A) → Call R A
  read_db f s = (ok (f s.db), s)

  abbrev with_db : {A : Type 0} → Server R → Result A × Db → Result A × Server R
  with_db s (r, db) = (r, record s { db = db })

  -- A method of a repository, which is atomic.
  abbrev pub on_db : {A : Type 0} → Action A → Call R A
  on_db m s = with_db s (m s.db)

  -- A write of Redis whose failure is caught and logged.
  abbrev pub softly : (R → Bool × R) → Call R (Unit {0})
  softly f s = (ok tt, record s { redis = (f s.redis).1 })

-- Whether a call returns or throws.
pub Call-cases :
    {A S : Type 0} (p : Result A × S)
    → ((a : A) × (s : S) × (p ≡ (ok a, s))) ⊎ ((e : Exception) × (s : S) × (p ≡ (err e, s)))
Call-cases (ok a, s) = inl (a, s, refl)
Call-cases (err e, s) = inr (e, s, refl)

pub Answer-cases :
    {A : Type 0} (r : Result A) → ((a : A) × (r ≡ ok a)) ⊎ ((e : Exception) × (r ≡ err e))
Answer-cases (ok a) = inl (a, refl)
Answer-cases (err e) = inr (e, refl)
