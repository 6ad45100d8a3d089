-- ===== src/Pages/Numbered.antt =====
-- src/modules/transaction and src/modules/user: the numbered pages of a history and of the users, one
-- after another.
use Prim.Native.Nat.{◌%◌}
use native.Mathlib.Nat.{div-add-mod', mod-lt}
use payment_wallet_system.Prelude.{
  ℕ, ◌+◌, ◌-◌, ◌*◌, ◌/◌, ◌≤◌, ◌<◌, ◌≡◌, refl, sym, ap, subst, ◌∙◌, Bool, some, List, [], ◌∷◌, ◌++◌,
  map, arith, ltb, ◌==◌, false,
}
use payment_wallet_system.Prelude.Lists.{length, take, drop}
use payment_wallet_system.Db.Schema.{Uuid, Transaction, Wallet, Db}
use payment_wallet_system.Db.Query.{Every, Every-order_by, where_rows, order_by, insert_by}
use payment_wallet_system.Db.Table.{Distinct}
use payment_wallet_system.Db.Tx.{Result, ok, err}
use payment_wallet_system.Wallet.{find_by_user_id}
use payment_wallet_system.Transaction.Service.{TransactionResult, to_result}
use payment_wallet_system.Transaction.History.{
  PaginatedTransactions, of_wallet, latest_first, find_by_wallet_paginated, get_transaction_history,
}

covers : (n k x r : ℕ) → 1 ≤ k → x + r ≡ n + (k - 1) → r < k → n ≤ x
covers n k x r h e l = omega (arith, h, e, l)

-- As many pages as the rounded quotient hold all.
quotient_covers : (n k : ℕ) → 1 ≤ k → n ≤ ((n + (k - 1)) / k) * k
quotient_covers n k h =
    covers n k (((n + (k - 1)) / k) * k) ((n + (k - 1)) % k) h (div-add-mod' (n + (k - 1)) k)
      (mod-lt (n + (k - 1)) (omega (arith, h)))

shift : (a b : ℕ) → ℕ.suc (a + b) ≡ ℕ.suc a + b
shift a b = omega arith

module _ {A : Type 0} where
  take_none : (n : ℕ) → [] ≡ take {A = A} n []
  take_none ℕ.zero = refl
  take_none (ℕ.suc n) = refl

  take-add : (a b : ℕ) (xs : List A) → take a xs ++ take b (drop a xs) ≡ take (a + b) xs
  take-add ℕ.zero b xs = ap (λ n. take n xs) (omega arith)
  take-add (ℕ.suc a) ℕ.zero [] = take_none (ℕ.suc a + 0)
  take-add (ℕ.suc a) (ℕ.suc b) [] = take_none (ℕ.suc a + ℕ.suc b)
  take-add (ℕ.suc a) b (x ∷ xs) =
      ap (λ ys. x ∷ ys) (take-add a b xs) ∙ ap (λ n. take n (x ∷ xs)) (shift a b)

  take_all : (n : ℕ) (xs : List A) → length xs ≤ n → take n xs ≡ xs
  take_all ℕ.zero [] h = refl
  take_all ℕ.zero (x ∷ xs) h = absurd (omega (arith, h))
  take_all (ℕ.suc n) [] h = refl
  take_all (ℕ.suc n) (x ∷ xs) h = ap (λ ys. x ∷ ys) (take_all n xs (omega (arith, h)))

  map-++ : {B : Type 0} (f : A → B) (xs ys : List A) → map f xs ++ map f ys ≡ map f (xs ++ ys)
  map-++ f [] ys = refl
  map-++ f (x ∷ xs) ys = ap (λ zs. f x ∷ zs) (map-++ f xs ys)

  length-insert_by :
      (before : A → A → Bool) (x : A) (xs : List A)
      → length (insert_by before x xs) ≡ ℕ.suc (length xs)
  unfolding insert_by
  length-insert_by before x [] = refl
  length-insert_by before x (y ∷ xs) = ground (arith, length-insert_by before x xs)

  length-order_by : (before : A → A → Bool) (xs : List A) → length (order_by before xs) ≡ length xs
  unfolding order_by
  length-order_by before [] = refl
  length-order_by before (x ∷ xs) =
      length-insert_by before x (order_by before xs) ∙ ap ℕ.suc (length-order_by before xs)

  -- The pages 1 to `n`, one after another.
  abbrev pub pages_up_to : (ℕ → List A) → ℕ → List A
  pages_up_to page ℕ.zero = []
  pages_up_to page (ℕ.suc n) = pages_up_to page n ++ page (ℕ.suc n)

zero_times : (limit : ℕ) → 0 ≡ 0 * limit
zero_times limit = grind arith

next_offset : (n limit : ℕ) → (ℕ.suc n - 1) * limit ≡ n * limit
next_offset n limit = ap (λ m. m * limit) (omega arith)

next_end : (n limit : ℕ) → n * limit + limit ≡ ℕ.suc n * limit
next_end n limit = grind arith

pages_up_to_lem :
    {A B : Type 0} (f : A → B) (limit : ℕ) (xs : List A) (n : ℕ)
    → pages_up_to (λ page. map f (take limit (drop ((page - 1) * limit) xs))) n
      ≡ map f (take (n * limit) xs)
pages_up_to_lem f limit xs ℕ.zero = ap (λ m. map f (take m xs)) (zero_times limit)
pages_up_to_lem f limit xs (ℕ.suc n) =
    ap
      (λ m.
        pages_up_to (λ page. map f (take limit (drop ((page - 1) * limit) xs))) n
        ++ map f (take limit (drop m xs)))
      (next_offset n limit)
    ∙ ap (λ ys. ys ++ map f (take limit (drop (n * limit) xs))) (pages_up_to_lem f limit xs n)
    ∙ map-++ f (take (n * limit) xs) (take limit (drop (n * limit) xs))
    ∙ ap (map f) (take-add (n * limit) limit xs)
    ∙ ap (λ m. map f (take m xs)) (next_end n limit)

-- The items of a page that is answered.
abbrev pub items_of : Result (PaginatedTransactions × Db) → List TransactionResult
items_of (ok (p, db)) = p.items
items_of (err e) = []

pages-agree :
    {A : Type 0} (f g : ℕ → List A) (n : ℕ)
    → ((m : ℕ) → f m ≡ g m)
    → pages_up_to f n ≡ pages_up_to g n
pages-agree f g ℕ.zero h = refl
pages-agree f g (ℕ.suc n) h =
    ap (λ xs. xs ++ f (ℕ.suc n)) (pages-agree f g n h)
    ∙ ap (λ xs. pages_up_to g n ++ xs) (h (ℕ.suc n))

abbrev pub later_first : Transaction → Transaction → Bool
later_first a b = ltb b.created_at a.created_at

insert_by-agree :
    (rank : Transaction → ℕ) (t : Transaction) (ts : List Transaction)
    → Every (λ u. (t.created_at == u.created_at) ≡ false) ts
    → insert_by (latest_first rank) t ts ≡ insert_by later_first t ts
unfolding insert_by
insert_by-agree rank t [] a = refl
insert_by-agree rank t (u ∷ ts) a =
    let apart = a.0 in let rest = insert_by-agree rank t ts a.1 in ground arith

-- Ranks do not matter where all times differ.
order_by-agree :
    (rank : Transaction → ℕ) (ts : List Transaction)
    → Distinct (λ t. t.created_at) ts
    → order_by (latest_first rank) ts ≡ order_by later_first ts
unfolding order_by
order_by-agree rank [] d = refl
order_by-agree rank (t ∷ ts) d =
    ap (insert_by (latest_first rank) t) (order_by-agree rank ts d.1)
    ∙ insert_by-agree rank t (order_by later_first ts)
        (Every-order_by (λ u. (t.created_at == u.created_at) ≡ false) later_first ts d.0)

-- Whatever page of the history a user asks for, the page is answered and says how many pages there
-- are; and the pages from the first to the last of these, each of them read by a query of its own,
-- are together all the transactions to or from the user's wallet, each once and the latest first. The
-- limit is not zero, and no two of these transactions have the same time: the database may read
-- transactions of one time in another order for each page.
pub get_transaction_history_lem :
    (ranks : ℕ → Transaction → ℕ) (user_id : Uuid) (w : Wallet) (page limit : ℕ) (db : Db)
    → 1 ≤ limit
    → find_by_user_id user_id db ≡ some w
    → Distinct (λ t. t.created_at) (where_rows (of_wallet w.id) db.transactions)
    → (p : PaginatedTransactions) × (get_transaction_history (ranks page) user_id page limit db
        ≡ ok (p, db))
      × (pages_up_to
            (λ n. items_of (get_transaction_history (ranks n) user_id n limit db))
            p.total_pages
          ≡ map to_result (order_by later_first (where_rows (of_wallet w.id) db.transactions)))
unfolding get_transaction_history find_by_wallet_paginated
get_transaction_history_lem ranks user_id w page limit db h e d = rw e (
    let found = where_rows (of_wallet w.id) db.transactions in
    let n = (length found + (limit - 1)) / limit in
    (
      _,
      refl,
      pages-agree _ _ n (λ m.
            ap (λ ts. map to_result (take limit (drop ((m - 1) * limit) ts)))
              (order_by-agree (ranks m) found d))
          ∙ pages_up_to_lem to_result limit (order_by later_first found) n
          ∙ ap (map to_result) (
              take_all (n * limit) (order_by later_first found) (
                subst (λ k. k ≤ n * limit) (sym (length-order_by later_first found))
                  (quotient_covers (length found) limit h))),
    ))
