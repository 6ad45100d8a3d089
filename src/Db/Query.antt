-- ===== src/Db/Query.antt =====
-- `findMany`: the rows that pass `where`, in the order of `orderBy`, as many as `take` says.
use payment_wallet_system.Prelude.{
  ℕ, ◌≤◌, ◌≡◌, Bool, true, Option, none, some, List, [], ◌∷◌, ◌++◌, refl, arith, if◌then◌else◌, ltb,
  Bool-cases, inl, inr,
}
use payment_wallet_system.Prelude.Lists.{length, take}

module _ {R : Type 0} where
  unfoldable pub where_rows : (R → Bool) → List R → List R
  where_rows p [] = []
  where_rows p (r ∷ rs) = if p r then r ∷ where_rows p rs else where_rows p rs

  -- `findFirst`, in the order of the rows.
  unfoldable pub find_first : (R → Bool) → List R → Option R
  find_first p [] = none
  find_first p (r ∷ rs) = if p r then some r else find_first p rs

  pub find_first-snoc :
      (p : R → Bool) (rs : List R) (r : R)
      → find_first p rs ≡ none
      → p r ≡ true
      → find_first p (rs ++ r ∷ []) ≡ some r
  unfolding find_first
  find_first-snoc p [] r e h = rw h refl
  find_first-snoc p (x ∷ rs) r e h = ground (arith, find_first-snoc p rs r)

  -- Puts a row behind those that come before it or rank alike.
  unfoldable pub insert_by : (R → R → Bool) → R → List R → List R
  insert_by before r [] = r ∷ []
  insert_by before r (x ∷ xs) = if before r x then r ∷ x ∷ xs else x ∷ insert_by before r xs

  unfoldable pub order_by : (R → R → Bool) → List R → List R
  unfolding insert_by
  order_by before [] = []
  order_by before (r ∷ rs) = insert_by before r (order_by before rs)

  unfoldable pub find_many : (R → Bool) → (R → R → Bool) → ℕ → List R → List R
  unfolding where_rows order_by
  find_many p before limit rs = take limit (order_by before (where_rows p rs))

  -- Every row of the list has the property.
  abbrev pub Every : (R → Type 0) → List R → Type 0
  Every P [] = Unit {0}
  Every P (r ∷ rs) = P r × Every P rs

  pub Every-where_rows : (p : R → Bool) (rs : List R) → Every (λ r. p r ≡ true) (where_rows p rs)
  unfolding where_rows
  Every-where_rows p [] = tt
  Every-where_rows p (r ∷ rs) = ground (arith, Every-where_rows p rs)

  pub Every-where_of :
      (P : R → Type 0) (p : R → Bool) (rs : List R) → Every P rs → Every P (where_rows p rs)
  unfolding where_rows
  Every-where_of P p [] h = tt
  Every-where_of P p (r ∷ rs) h = elim (Bool-cases (p r)) [
    | inl passes ↦ rw passes (h.0, Every-where_of P p rs h.1)
    | inr dropped ↦ rw dropped (Every-where_of P p rs h.1)
  ]

  pub Every-insert_by :
      (P : R → Type 0) (before : R → R → Bool) (r : R) (xs : List R)
      → P r
      → Every P xs
      → Every P (insert_by before r xs)
  unfolding insert_by
  Every-insert_by P before r [] h hs = (h, tt)
  Every-insert_by P before r (x ∷ xs) h hs = ground (arith, Every-insert_by P before r xs h hs.1)

  pub Every-order_by :
      (P : R → Type 0) (before : R → R → Bool) (xs : List R)
      → Every P xs
      → Every P (order_by before xs)
  unfolding order_by
  Every-order_by P before [] h = tt
  Every-order_by P before (x ∷ xs) h =
      Every-insert_by P before x _ h.0 (Every-order_by P before xs h.1)

  pub Every-take : (P : R → Type 0) (n : ℕ) (xs : List R) → Every P xs → Every P (take n xs)
  Every-take P ℕ.zero xs h = tt
  Every-take P (ℕ.suc n) [] h = tt
  Every-take P (ℕ.suc n) (x ∷ xs) h = (h.0, Every-take P n xs h.1)

  pub Every-find_many :
      (p : R → Bool) (before : R → R → Bool) (limit : ℕ) (rs : List R)
      → Every (λ r. p r ≡ true) (find_many p before limit rs)
  unfolding find_many
  Every-find_many p before limit rs =
      Every-take _ limit _ (Every-order_by _ before _ (Every-where_rows p rs))

  pub length-find_many :
      (p : R → Bool) (before : R → R → Bool) (limit : ℕ) (rs : List R)
      → length (find_many p before limit rs) ≤ limit
  unfolding find_many
  length-find_many p before limit rs = length-take limit _
    where
      length-take : (n : ℕ) (xs : List R) → length (take n xs) ≤ n
      length-take ℕ.zero xs = omega arith
      length-take (ℕ.suc n) [] = omega arith
      length-take (ℕ.suc n) (x ∷ xs) = omega (arith, length-take n xs)

module _ {R : Type 0} (key : R → ℕ) where
  -- No row comes after one with a greater key.
  abbrev pub Ascending : List R → Type 0
  Ascending [] = Unit {0}
  Ascending (r ∷ rs) = Every (λ x. key r ≤ key x) rs × Ascending rs

  Every-from :
      (a b : ℕ) (rs : List R) → a ≤ b → Every (λ x. b ≤ key x) rs → Every (λ x. a ≤ key x) rs
  Every-from a b [] h hs = tt
  Every-from a b (r ∷ rs) h hs = (omega (arith, h, hs.0), Every-from a b rs h hs.1)

  Ascending-insert_by :
      (r : R) (xs : List R) → Ascending xs → Ascending (insert_by (λ a b. ltb (key a) (key b)) r xs)
  unfolding insert_by
  Ascending-insert_by r [] h = (tt, tt)
  Ascending-insert_by r (x ∷ xs) h = elim (Bool-cases (ltb (key r) (key x))) [
    | inl less ↦
        let below : key r ≤ key x = ground arith in
        rw less ((below, Every-from (key r) (key x) xs below h.0), h)
    | inr not_less ↦
        let above : key x ≤ key r = ground arith in
        rw not_less (
          Every-insert_by (λ y. key x ≤ key y) (λ a b. ltb (key a) (key b)) r xs above h.0,
          Ascending-insert_by r xs h.1,
        )
  ]

  pub Ascending-order_by : (xs : List R) → Ascending (order_by (λ a b. ltb (key a) (key b)) xs)
  unfolding order_by
  Ascending-order_by [] = tt
  Ascending-order_by (x ∷ xs) = Ascending-insert_by x _ (Ascending-order_by xs)

  Ascending-take : (n : ℕ) (xs : List R) → Ascending xs → Ascending (take n xs)
  Ascending-take ℕ.zero xs h = tt
  Ascending-take (ℕ.suc n) [] h = tt
  Ascending-take (ℕ.suc n) (x ∷ xs) h =
      (Every-take (λ y. key x ≤ key y) n xs h.0, Ascending-take n xs h.1)

  pub Ascending-find_many :
      (p : R → Bool) (limit : ℕ) (rs : List R)
      → Ascending (find_many p (λ a b. ltb (key a) (key b)) limit rs)
  unfolding find_many
  Ascending-find_many p limit rs = Ascending-take limit _ (Ascending-order_by (where_rows p rs))
