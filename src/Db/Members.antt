-- ===== src/Db/Members.antt =====
-- The rows that `findMany` gives, one by one.
use mathlib.Core.List.{Memᴰ}
use payment_wallet_system.Prelude.{
  ℕ, ◌≤◌, ◌≡◌, ◌⊎◌, refl, subst, sym, ap, inl, inr, true, Bool, Bool-cases, List, [], ◌∷◌,
}
use payment_wallet_system.Prelude.Lists.{length, take}
use payment_wallet_system.Db.Query.{Every, Ascending, where_rows, order_by, insert_by}

module _ {R : Type 0} where
  Every-at : (P : R → Type 0) (x : R) (xs : List R) → Every P xs → Memᴰ x xs → P x
  Every-at P x [] h m = elim m [ ]
  Every-at P x (y ∷ xs) h (Memᴰ.head e) = subst P (sym e) h.0
  Every-at P x (y ∷ xs) h (Memᴰ.tail m) = Every-at P x xs h.1 m

  pub Every_self : (xs ys : List R) → ((x : R) → Memᴰ x xs → Memᴰ x ys) → Every (λ x. Memᴰ x ys) xs
  Every_self [] ys h = tt
  Every_self (x ∷ xs) ys h = (h x (Memᴰ.head refl), Every_self xs ys (λ y m. h y (Memᴰ.tail m)))

  pub mem-where_rows :
      (p : R → Bool) (x : R) (xs : List R) → p x ≡ true → Memᴰ x xs → Memᴰ x (where_rows p xs)
  unfolding where_rows
  mem-where_rows p x [] h m = elim m [ ]
  mem-where_rows p x (y ∷ xs) h (Memᴰ.head e) = rw (ap p (sym e)) (rw h (Memᴰ.head e))
  mem-where_rows p x (y ∷ xs) h (Memᴰ.tail m) = elim (Bool-cases (p y)) [
    | inl keeps ↦ rw keeps (Memᴰ.tail (mem-where_rows p x xs h m))
    | inr drops ↦ rw drops (mem-where_rows p x xs h m)
  ]

  mem-inserted : (before : R → R → Bool) (x : R) (xs : List R) → Memᴰ x (insert_by before x xs)
  unfolding insert_by
  mem-inserted before x [] = Memᴰ.head refl
  mem-inserted before x (y ∷ xs) = elim (Bool-cases (before x y)) [
    | inl first ↦ rw first (Memᴰ.head refl)
    | inr behind ↦ rw behind (Memᴰ.tail (mem-inserted before x xs))
  ]

  mem-insert_by :
      (before : R → R → Bool) (x y : R) (xs : List R) → Memᴰ x xs → Memᴰ x (insert_by before y xs)
  unfolding insert_by
  mem-insert_by before x y [] m = elim m [ ]
  mem-insert_by before x y (z ∷ xs) (Memᴰ.head e) = elim (Bool-cases (before y z)) [
    | inl first ↦ rw first (Memᴰ.tail (Memᴰ.head e))
    | inr behind ↦ rw behind (Memᴰ.head e)
  ]
  mem-insert_by before x y (z ∷ xs) (Memᴰ.tail m) =
      let rest = mem-insert_by before x y xs m in
      elim (Bool-cases (before y z)) [
        | inl first ↦ rw first (Memᴰ.tail (Memᴰ.tail m))
        | inr behind ↦ rw behind (Memᴰ.tail rest)
      ]

  pub mem-order_by :
      (before : R → R → Bool) (x : R) (xs : List R) → Memᴰ x xs → Memᴰ x (order_by before xs)
  unfolding order_by
  mem-order_by before x [] m = elim m [ ]
  mem-order_by before x (y ∷ xs) (Memᴰ.head e) =
      subst (λ z. Memᴰ z (insert_by before y (order_by before xs))) (sym e)
        (mem-inserted before y (order_by before xs))
  mem-order_by before x (y ∷ xs) (Memᴰ.tail m) =
      mem-insert_by before x y (order_by before xs) (mem-order_by before x xs m)

  -- The first rows of an ascending list have each row, or are as many as they may be and none of them
  -- comes after it.
  pub mem-take :
      (key : R → ℕ) (n : ℕ) (x : R) (xs : List R)
      → Ascending key xs
      → Memᴰ x xs
      → Memᴰ x (take n xs) ⊎ ((length (take n xs) ≡ n) × Every (λ y. key y ≤ key x) (take n xs))
  mem-take key ℕ.zero x xs a m = inr (refl, tt)
  mem-take key (ℕ.suc n) x [] a m = elim m [ ]
  mem-take key (ℕ.suc n) x (y ∷ xs) a (Memᴰ.head e) = inl (Memᴰ.head e)
  mem-take key (ℕ.suc n) x (y ∷ xs) a (Memᴰ.tail m) = elim (mem-take key n x xs a.1 m) [
    | inl there ↦ inl (Memᴰ.tail there)
    | inr (full, older) ↦ inr (ap ℕ.suc full, (Every-at (λ z. key y ≤ key z) x xs a.0 m, older))
  ]
