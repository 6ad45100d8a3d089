-- ===== src/Prelude/Lists.antt =====
-- Lists measured by native numbers, and sums of integers over a list.
use Prim.Native.Nat.{ℕ, zero, suc}
use mathlib.Core.Path.{◌≡◌}
use mathlib.Core.List.{List, [], ◌∷◌, ◌++◌}
use payment_wallet_system.Prelude.Int.{ℤ, pos, ◌+ℤ◌, int_laws}

module _ {ℓ} {A : Type ℓ} where
  abbrev pub length : List A → ℕ
  length [] = 0
  length (x ∷ xs) = suc (length xs)

  abbrev pub take : ℕ → List A → List A
  take zero xs = []
  take (suc n) [] = []
  take (suc n) (x ∷ xs) = x ∷ take n xs

  abbrev pub drop : ℕ → List A → List A
  drop zero xs = xs
  drop (suc n) [] = []
  drop (suc n) (x ∷ xs) = drop n xs

  -- The sum of `f` over the list.
  unfoldable pub sum_of : (A → ℤ) → List A → ℤ
  sum_of f [] = pos 0
  sum_of f (x ∷ xs) = f x +ℤ sum_of f xs

  pub sum_of-snoc : (f : A → ℤ) (xs : List A) (x : A) → sum_of f (xs ++ x ∷ []) ≡ sum_of f xs +ℤ f x
  unfolding sum_of
  sum_of-snoc f [] x = grind int_laws
  sum_of-snoc f (y ∷ ys) x = grind (int_laws, sum_of-snoc f ys x)
