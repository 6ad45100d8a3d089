-- ===== src/Db/Order.antt =====
-- `orderBy` with a strict order, filters, and what comes after a row of the result.
use payment_wallet_system.Prelude.{
  ◌≡◌, refl, ap, ◌∙◌, Bool, true, false, List, [], ◌∷◌, ◌++◌, arith, if◌then◌else◌, Bool-cases, inl,
  inr,
}
use payment_wallet_system.Db.Query.{
  Every, where_rows, insert_by, order_by, Every-where_of, Every-insert_by,
}

module _ {R : Type 0} where
  pub where_rows-where_rows :
      (p q : R → Bool) (xs : List R)
      → ((r : R) → q r ≡ true → p r ≡ true)
      → where_rows q (where_rows p xs) ≡ where_rows q xs
  unfolding where_rows
  where_rows-where_rows p q [] h = refl
  where_rows-where_rows p q (x ∷ xs) h = elim (Bool-cases (p x)) [
    | inl passes ↦ ground (arith, where_rows-where_rows p q xs h)
    | inr dropped ↦ elim (Bool-cases (q x)) [
      | inl wrong ↦ let right = h x wrong in ground arith
      | inr fine ↦ ground (arith, where_rows-where_rows p q xs h)
    ]
  ]

module _ {R : Type 0} (before : R → R → Bool)
    (trans : (a b c : R) → before a b ≡ true → before b c ≡ true → before a c ≡ true) where
  abbrev pub Sorted : List R → Type 0
  Sorted [] = Unit {0}
  Sorted (x ∷ xs) = Every (λ y. before x y ≡ true) xs × Sorted xs

  -- Any two rows are ordered one way or the other.
  abbrev pub Apart : List R → Type 0
  Apart [] = Unit {0}
  Apart (x ∷ xs) = Every (λ y. before x y ≡ false → before y x ≡ true) xs × Apart xs

  before_all :
      (a b : R) (xs : List R)
      → before a b ≡ true
      → Every (λ y. before b y ≡ true) xs
      → Every (λ y. before a y ≡ true) xs
  before_all a b [] h hs = tt
  before_all a b (x ∷ xs) h hs = (trans a b x h hs.0, before_all a b xs h hs.1)

  insert_by-Sorted :
      (r : R) (xs : List R)
      → Every (λ y. before r y ≡ false → before y r ≡ true) xs
      → Sorted xs
      → Sorted (insert_by before r xs)
  unfolding insert_by
  insert_by-Sorted r [] a s = (tt, tt)
  insert_by-Sorted r (x ∷ xs) a s = elim (Bool-cases (before r x)) [
    | inl first ↦ rw first ((first, before_all r x xs first s.0), s)
    | inr later ↦ rw later (
      Every-insert_by (λ y. before x y ≡ true) before r xs (a.0 later) s.0,
      insert_by-Sorted r xs a.1 s.1,
    )
  ]

  Every-order_by_of : (P : R → Type 0) (xs : List R) → Every P xs → Every P (order_by before xs)
  unfolding order_by
  Every-order_by_of P [] h = tt
  Every-order_by_of P (x ∷ xs) h = Every-insert_by P before x _ h.0 (Every-order_by_of P xs h.1)

  pub order_by-Sorted : (xs : List R) → Apart xs → Sorted (order_by before xs)
  unfolding order_by
  order_by-Sorted [] a = tt
  order_by-Sorted (x ∷ xs) a =
      insert_by-Sorted x _ (Every-order_by_of _ xs a.0) (order_by-Sorted xs a.1)

  insert_by-front :
      (r : R) (xs : List R) → Every (λ y. before r y ≡ true) xs → insert_by before r xs ≡ r ∷ xs
  unfolding insert_by
  insert_by-front r [] h = refl
  insert_by-front r (x ∷ xs) h = rw h.0 refl

  where_rows-insert_by :
      (p : R → Bool) (r : R) (xs : List R)
      → Sorted xs
      → where_rows p (insert_by before r xs)
        ≡ (if p r then insert_by before r (where_rows p xs) else where_rows p xs)
  unfolding where_rows insert_by
  where_rows-insert_by p r [] s = refl
  where_rows-insert_by p r (x ∷ xs) s = elim (Bool-cases (before r x)) [
    | inl first ↦
        let front =
          insert_by-front r (where_rows p xs)
            (Every-where_of _ p xs (before_all r x xs first s.0)) in
        ground arith
    | inr later ↦ ground (arith, where_rows-insert_by p r xs s.1)
  ]

  pub where_rows-order_by :
      (p : R → Bool) (xs : List R)
      → Apart xs
      → where_rows p (order_by before xs) ≡ order_by before (where_rows p xs)
  unfolding where_rows order_by
  where_rows-order_by p [] a = refl
  where_rows-order_by p (x ∷ xs) a =
      where_rows-insert_by p x (order_by before xs) (order_by-Sorted xs a.1)
      ∙ ap (λ ys. if p x then insert_by before x ys else ys) (where_rows-order_by p xs a.1)
      ∙ ground arith

  where_all : (p : R → Bool) (xs : List R) → Every (λ y. p y ≡ true) xs → where_rows p xs ≡ xs
  unfolding where_rows
  where_all p [] h = refl
  where_all p (x ∷ xs) h = ground (arith, where_all p xs h.1)

  -- What a cursor at a row of a sorted list selects is what follows the row.
  pub where_rows-after :
      ((a b : R) → before a b ≡ true → before b a ≡ false)
      → (r : R) → before r r ≡ false
      → (front rest : List R) → Sorted (front ++ r ∷ rest)
      → where_rows (before r) (front ++ r ∷ rest) ≡ rest
  unfolding where_rows
  where_rows-after asym r i [] rest s = ground (arith, where_all (before r) rest s.0)
  where_rows-after asym r i (x ∷ front) rest s =
      let past = asym x r (middle front s.0) in
      ground (arith, where_rows-after asym r i front rest s.1)
    where
      middle : (ys : List R) → Every (λ y. before x y ≡ true) (ys ++ r ∷ rest) → before x r ≡ true
      middle [] h = h.0
      middle (y ∷ ys) h = middle ys h.1
