-- ===== src/Db/Table.antt =====
-- A table is the list of its rows, oldest first. A query by a unique column finds one row at most.
use payment_wallet_system.Prelude.{
  ℕ, ◌≡◌, refl, sym, subst, Option, none, some, List, [], ◌∷◌, ◌++◌, arith, ◌==◌, if◌then◌else◌,
  Bool-cases, inl, inr, ◌⊎◌, true, false, ==_refl,
}
use payment_wallet_system.Db.Query.{Every}
use payment_wallet_system.Prelude.Int.{ℤ, ◌+ℤ◌, int_laws}
use payment_wallet_system.Prelude.Lists.{sum_of}

module _ {R : Type 0} (column : R → ℕ) where
  -- `findUnique({ where: { column: k } })`
  unfoldable pub find_unique : ℕ → List R → Option R
  find_unique k [] = none
  find_unique k (r ∷ rs) = if column r == k then some r else find_unique k rs

  -- `update({ where: { column: k }, … })` puts the new row in the place of the old one.
  unfoldable pub replace : ℕ → R → List R → List R
  replace k new [] = []
  replace k new (r ∷ rs) = if column r == k then new ∷ rs else r ∷ replace k new rs

module _ {R : Type 0} (column : R → ℕ) where
  pub find_unique-column :
      (k : ℕ) (rs : List R) (r : R) → find_unique column k rs ≡ some r → column r ≡ k
  unfolding find_unique
  find_unique-column k [] r e = ground arith
  find_unique-column k (x ∷ rs) r e = ground (arith, find_unique-column k rs r)

  pub find_unique_self :
      (k : ℕ) (rs : List R) (r : R)
      → find_unique column k rs ≡ some r
      → find_unique column (column r) rs ≡ some r
  find_unique_self k rs r e =
      subst (λ j. find_unique column j rs ≡ some r) (sym (find_unique-column k rs r e)) e

  -- A row that is put in the place of another is found under its key, and no other row changes.
  pub find_unique-replace :
      (j k : ℕ) (new old : R) (rs : List R)
      → column new ≡ k
      → find_unique column k rs ≡ some old
      → find_unique column j (replace column k new rs)
        ≡ (if k == j then some new else find_unique column j rs)
  unfolding find_unique replace
  find_unique-replace j k new old [] c e = ground arith
  find_unique-replace j k new old (x ∷ rs) c e =
      ground (arith, find_unique-replace j k new old rs c)

  pub find_unique-snoc :
      (j : ℕ) (rs : List R) (r : R)
      → find_unique column j rs ≡ none
      → find_unique column j (rs ++ r ∷ []) ≡ (if column r == j then some r else none)
  unfolding find_unique
  find_unique-snoc j [] r e = refl
  find_unique-snoc j (x ∷ rs) r e = ground (arith, find_unique-snoc j rs r)

  pub find_unique-snoc_old :
      (j : ℕ) (rs : List R) (r old : R)
      → find_unique column j rs ≡ some old
      → find_unique column j (rs ++ r ∷ []) ≡ some old
  unfolding find_unique
  find_unique-snoc_old j [] r old e = ground arith
  find_unique-snoc_old j (x ∷ rs) r old e = ground (arith, find_unique-snoc_old j rs r old)

  pub Every-of_none :
      (k : ℕ) (rs : List R)
      → find_unique column k rs ≡ none
      → Every (λ r. (column r == k) ≡ false) rs
  unfolding find_unique
  Every-of_none k [] e = tt
  Every-of_none k (x ∷ rs) e = elim (Bool-cases (column x == k)) [
    | inl hit ↦ ground arith
    | inr miss ↦ (miss, Every-of_none k rs (ground arith))
  ]

  pub none-of_Every :
      (k : ℕ) (rs : List R)
      → Every (λ r. (column r == k) ≡ false) rs
      → find_unique column k rs ≡ none
  unfolding find_unique
  none-of_Every k [] h = refl
  none-of_Every k (x ∷ rs) h = rw h.0 (none-of_Every k rs h.1)

  -- Replacing a row moves a sum by the difference of the two rows.
  pub sum_of-replace :
      (f : R → ℤ) (k : ℕ) (new old : R) (rs : List R)
      → find_unique column k rs ≡ some old
      → sum_of f (replace column k new rs) +ℤ f old ≡ sum_of f rs +ℤ f new
  unfolding find_unique replace sum_of
  sum_of-replace f k new old [] e = ground arith
  sum_of-replace f k new old (x ∷ rs) e = grind (int_laws, sum_of-replace f k new old rs)

  -- The last of two rows that are put in one place stays.
  pub replace-replace :
      (k : ℕ) (new newer : R) (rs : List R)
      → column new ≡ k
      → replace column k newer (replace column k new rs) ≡ replace column k newer rs
  unfolding replace
  replace-replace k new newer [] c = refl
  replace-replace k new newer (x ∷ rs) c = ground (arith, replace-replace k new newer rs c)

module _ {R : Type 0} (column other : R → ℕ) where
  -- The row that another column finds is the old one's new row, or the one it was.
  pub find_unique-replace_same :
      (j k : ℕ) (new old r : R) (rs : List R)
      → find_unique column k rs ≡ some old
      → other new ≡ other old
      → find_unique other j rs ≡ some r
      → (find_unique other j (replace column k new rs) ≡ some r)
        ⊎ ((find_unique other j (replace column k new rs) ≡ some new) × (r ≡ old))
  unfolding find_unique replace
  find_unique-replace_same j k new old r [] e c h = ground arith
  find_unique-replace_same j k new old r (x ∷ rs) e c h = elim (Bool-cases (column x == k)) [
    | inl hit ↦ elim (Bool-cases (other x == j)) [
      | inl named ↦ inr (ground arith, ground arith)
      | inr unnamed ↦ inl (ground arith)
    ]
    | inr miss ↦ elim (Bool-cases (other x == j)) [
      | inl named ↦ inl (ground arith)
      | inr unnamed ↦
          elim (find_unique-replace_same j k new old r rs (ground arith) c (ground arith)) [
            | inl same ↦ inl (ground arith)
            | inr (changed, is_old) ↦ inr (ground arith, is_old)
          ]
    ]
  ]

module _ {R : Type 0} (column : R → ℕ) (P : R → Type 0) where
  pub Every-snoc : (rs : List R) (r : R) → Every P rs → P r → Every P (rs ++ r ∷ [])
  Every-snoc [] r h p = (p, tt)
  Every-snoc (x ∷ rs) r h p = (h.0, Every-snoc rs r h.1 p)

  pub Every-replace :
      (k : ℕ) (new : R) (rs : List R) → Every P rs → P new → Every P (replace column k new rs)
  unfolding replace
  Every-replace k new [] h p = tt
  Every-replace k new (x ∷ rs) h p = ground (arith, Every-replace k new rs h.1 p)

  pub Every-find_unique :
      (k : ℕ) (rs : List R) (r : R) → find_unique column k rs ≡ some r → Every P rs → P r
  unfolding find_unique
  Every-find_unique k [] r e h = ground arith
  Every-find_unique k (x ∷ rs) r e h = elim (Bool-cases (column x == k)) [
    | inl hit ↦ subst P (ground arith) h.0
    | inr miss ↦ Every-find_unique k rs r (ground arith) h.1
  ]

module _ {R : Type 0} (column : R → ℕ) where
  -- No two rows agree in the column.
  abbrev pub Distinct : List R → Type 0
  Distinct [] = Unit {0}
  Distinct (r ∷ rs) = Every (λ x. (column r == column x) ≡ false) rs × Distinct rs

  found_behind :
      (r : R) (all rs : List R)
      → Every (λ x. (column r == column x) ≡ false) rs
      → Every (λ x. find_unique column (column x) all ≡ some x) rs
      → Every (λ x. find_unique column (column x) (r ∷ all) ≡ some x) rs
  unfolding find_unique
  found_behind r all [] a h = tt
  found_behind r all (x ∷ rs) a h = (rw a.0 h.0, found_behind r all rs a.1 h.1)

  -- Then each row is found by its column.
  pub Distinct-found :
      (rs : List R) → Distinct rs → Every (λ x. find_unique column (column x) rs ≡ some x) rs
  unfolding find_unique
  Distinct-found [] d = tt
  Distinct-found (r ∷ rs) d =
      (rw (==_refl (column r)) refl, found_behind r rs rs d.0 (Distinct-found rs d.1))

  apart_snoc :
      (r x : R) (rs : List R)
      → Every (λ y. (column r == column y) ≡ false) rs
      → (column r == column x) ≡ false
      → Every (λ y. (column r == column y) ≡ false) (rs ++ x ∷ [])
  apart_snoc r x [] h k = (k, tt)
  apart_snoc r x (y ∷ rs) h k = (h.0, apart_snoc r x rs h.1 k)

  pub Distinct-snoc :
      (rs : List R) (r : R)
      → Distinct rs
      → find_unique column (column r) rs ≡ none
      → Distinct (rs ++ r ∷ [])
  unfolding find_unique
  Distinct-snoc [] r d e = (tt, tt)
  Distinct-snoc (x ∷ rs) r d e = elim (Bool-cases (column x == column r)) [
    | inl hit ↦ ground arith
    | inr miss ↦ (apart_snoc x r rs d.0 miss, Distinct-snoc rs r d.1 (ground arith))
  ]

module _ {R : Type 0} (column other : R → ℕ) where
  replaced_same :
      (x new old : R) (k : ℕ) (rs : List R)
      → find_unique column k (x ∷ rs) ≡ some old
      → other new ≡ other old
      → (column x == k) ≡ true
      → other new ≡ other x
  unfolding find_unique
  replaced_same x new old k rs f c hit = ground arith

  apart_replace :
      (r new old : R) (k : ℕ) (rs : List R)
      → find_unique column k rs ≡ some old
      → other new ≡ other old
      → Every (λ y. (other r == other y) ≡ false) rs
      → Every (λ y. (other r == other y) ≡ false) (replace column k new rs)
  unfolding find_unique replace
  apart_replace r new old k [] f c h = tt
  apart_replace r new old k (x ∷ rs) f c h = elim (Bool-cases (column x == k)) [
    | inl hit ↦
        rw hit (
          subst (λ m. (other r == m) ≡ false) (sym (replaced_same x new old k rs f c hit)) h.0,
          h.1,
        )
    | inr miss ↦ rw miss (h.0, apart_replace r new old k rs (ground arith) c h.1)
  ]

  -- A row in the place of one with the same value in a column.
  pub Distinct-replace :
      (new old : R) (k : ℕ) (rs : List R)
      → find_unique column k rs ≡ some old
      → other new ≡ other old
      → Distinct other rs
      → Distinct other (replace column k new rs)
  unfolding find_unique replace
  Distinct-replace new old k [] f c d = tt
  Distinct-replace new old k (x ∷ rs) f c d = elim (Bool-cases (column x == k)) [
    | inl hit ↦ rw hit (
      subst (λ m. Every (λ y. (m == other y) ≡ false) rs)
          (sym (replaced_same x new old k rs f c hit)) d.0,
      d.1,
    )
    | inr miss ↦ rw miss (
      apart_replace x new old k rs (ground arith) c d.0,
      Distinct-replace new old k rs (ground arith) c d.1,
    )
  ]
