-- ===== src/Pages.antt =====
-- src/modules/wallet: the pages of a ledger, one after another.
pub mod Numbered
use payment_wallet_system.Prelude.{
  ℕ, ◌≤◌, ◌<◌, ◌≡◌, refl, sym, ap, subst, ◌∙◌, Option, none, some, Bool, true, false, List, [], ◌∷◌,
  ◌++◌, arith, ltb, ◌==◌, Bool-cases, inl, inr, ◌⊎◌,
}
use payment_wallet_system.Prelude.Lists.{length, take}
use payment_wallet_system.Db.Schema.{Uuid, LedgerEntry, Db}
use payment_wallet_system.Db.Query.{
  Every, where_rows, order_by, find_many, Every-where_of, Every-where_rows, Every-order_by,
}
use payment_wallet_system.Db.Order.{
  Sorted, Apart, order_by-Sorted, where_rows-order_by, where_rows-after, where_rows-where_rows,
}
use payment_wallet_system.Wallet.Pages.{
  KeysetCursor, LedgerPage, newest_first, selects, encode_cursor, last_cursor, fetch_ledger_page,
}

newest_first-trans :
    (a b c : LedgerEntry)
    → newest_first a b ≡ true
    → newest_first b c ≡ true
    → newest_first a c ≡ true
newest_first-trans a b c h k = ground arith

newest_first-asym : (a b : LedgerEntry) → newest_first a b ≡ true → newest_first b a ≡ false
newest_first-asym a b h = ground arith

newest_first_irrefl : (a : LedgerEntry) → newest_first a a ≡ false
newest_first_irrefl a = ground arith

-- No two entries of the ledger have the same id.
abbrev pub DistinctIds : List LedgerEntry → Type 0
DistinctIds [] = Unit {0}
DistinctIds (e ∷ es) = Every (λ f. (e.id == f.id) ≡ false) es × DistinctIds es

apart_from :
    (e : LedgerEntry) (es : List LedgerEntry)
    → Every (λ f. (e.id == f.id) ≡ false) es
    → Every (λ f. newest_first e f ≡ false → newest_first f e ≡ true) es
apart_from e [] h = tt
apart_from e (f ∷ es) h = ((λ n. let d = h.0 in ground arith), apart_from e es h.1)

DistinctIds-Apart :
    (es : List LedgerEntry) → DistinctIds es → Apart newest_first newest_first-trans es
DistinctIds-Apart [] h = tt
DistinctIds-Apart (e ∷ es) h = (apart_from e es h.0, DistinctIds-Apart es h.1)

-- The entries of the wallet beyond the cursor, newest first.
abbrev pub remaining : Uuid → Option KeysetCursor → Db → List LedgerEntry
remaining wallet_id cursor db =
    order_by newest_first (where_rows (selects wallet_id cursor) db.ledger)

where_rows-agree :
    {R : Type 0} (p q : R → Bool) (xs : List R)
    → Every (λ r. p r ≡ q r) xs
    → where_rows p xs ≡ where_rows q xs
unfolding where_rows
where_rows-agree p q [] h = refl
where_rows-agree p q (x ∷ xs) h = ground (arith, where_rows-agree p q xs h.1)

Apart-where_rows :
    (p : LedgerEntry → Bool) (es : List LedgerEntry)
    → Apart newest_first newest_first-trans es
    → Apart newest_first newest_first-trans (where_rows p es)
unfolding where_rows
Apart-where_rows p [] a = tt
Apart-where_rows p (e ∷ es) a = elim (Bool-cases (p e)) [
  | inl passes ↦ rw passes (Every-where_of _ p es a.0, Apart-where_rows p es a.1)
  | inr dropped ↦ rw dropped (Apart-where_rows p es a.1)
]

split_page :
    (n : ℕ) (xs : List LedgerEntry)
    → 1 ≤ n
    → n < length (take (ℕ.suc n) xs)
    → (front rest : List LedgerEntry) × (last : LedgerEntry) × (take n (take (ℕ.suc n) xs)
        ≡ front ++ last ∷ [])
      × (xs ≡ front ++ last ∷ rest)
      × (length (take n (take (ℕ.suc n) xs)) ≡ n)
split_page ℕ.zero xs h k = absurd (omega (arith, h))
split_page (ℕ.suc n) [] h k = absurd (omega (arith, k))
split_page (ℕ.suc ℕ.zero) (x ∷ xs) h k = ([], xs, x, refl, refl, refl)
split_page (ℕ.suc (ℕ.suc n)) (x ∷ xs) h k =
    let (front, rest, last, p, q, l) = split_page (ℕ.suc n) xs (omega arith) (omega (arith, k)) in
    (x ∷ front, rest, last, ap (λ ys. x ∷ ys) p, ap (λ ys. x ∷ ys) q, ap ℕ.suc l)

take_whole :
    (n : ℕ) (xs : List LedgerEntry) → length (take (ℕ.suc n) xs) ≤ n → take (ℕ.suc n) xs ≡ xs
take_whole ℕ.zero [] h = refl
take_whole ℕ.zero (x ∷ xs) h = absurd (omega (arith, h))
take_whole (ℕ.suc n) [] h = refl
take_whole (ℕ.suc n) (x ∷ xs) h = ap (λ ys. x ∷ ys) (take_whole n xs (omega (arith, h)))

snoc_append :
    (front rest : List LedgerEntry) (e : LedgerEntry)
    → (front ++ e ∷ []) ++ rest ≡ front ++ e ∷ rest
snoc_append [] rest e = refl
snoc_append (x ∷ front) rest e = ap (λ ys. x ∷ ys) (snoc_append front rest e)

last_cursor-snoc :
    (front : List LedgerEntry) (e : LedgerEntry)
    → last_cursor (front ++ e ∷ []) ≡ some (encode_cursor e)
last_cursor-snoc [] e = refl
last_cursor-snoc (x ∷ []) e = refl
last_cursor-snoc (x ∷ (y ∷ front)) e = last_cursor-snoc (y ∷ front) e

narrows :
    (w : Uuid) (c : Option KeysetCursor) (last r : LedgerEntry)
    → selects w c last ≡ true
    → selects w (some (encode_cursor last)) r ≡ true
    → selects w c r ≡ true
narrows w none last r h k = ground arith
narrows w (some c) last r h k = ground arith

middle :
    (P : LedgerEntry → Type 0) (front rest : List LedgerEntry) (e : LedgerEntry)
    → Every P (front ++ e ∷ rest)
    → P e
middle P [] rest e h = h.0
middle P (x ∷ front) rest e h = middle P front rest e h.1

-- The page is all that is left, or a full one whose next cursor leads to the rest.
abbrev pub IsComplete : Uuid → Option KeysetCursor → ℕ → Db → LedgerPage → Type 0
IsComplete w c limit db page =
    ((page.next_cursor ≡ none) × (page.entries ≡ remaining w c db))
    ⊎ ((next : KeysetCursor) × (page.next_cursor ≡ some next)
        × (length page.entries ≡ limit)
        × (page.entries ++ remaining w (some next) db ≡ remaining w c db))

module _ (w : Uuid) (c : Option KeysetCursor) (db : Db) (distinct : DistinctIds db.ledger) where
  remaining-Sorted : Sorted newest_first newest_first-trans (remaining w c db)
  remaining-Sorted =
      order_by-Sorted newest_first newest_first-trans _
        (Apart-where_rows (selects w c) db.ledger (DistinctIds-Apart db.ledger distinct))

  Every-remaining : Every (λ e. selects w c e ≡ true) (remaining w c db)
  Every-remaining = Every-order_by _ newest_first _ (Every-where_rows (selects w c) db.ledger)

  agrees :
      (last : LedgerEntry) (es : List LedgerEntry)
      → Every (λ e. selects w c e ≡ true) es
      → Every (λ e. selects w (some (encode_cursor last)) e ≡ newest_first last e) es
  agrees last [] h = tt
  agrees last (e ∷ es) h = (let s = h.0 in ground arith, agrees last es h.1)

  -- What the cursor at an entry selects is what follows the entry.
  remaining_after :
      (last : LedgerEntry) (front rest : List LedgerEntry)
      → remaining w c db ≡ front ++ last ∷ rest
      → remaining w (some (encode_cursor last)) db ≡ rest
  remaining_after last front rest q =
      let selected =
        middle _ front rest last (subst (Every (λ e. selects w c e ≡ true)) q Every-remaining) in
      let next = selects w (some (encode_cursor last)) in
      ap (order_by newest_first) (
        sym (where_rows-where_rows (selects w c) next db.ledger (λ r. narrows w c last r selected)))
      ∙ sym (
          where_rows-order_by newest_first newest_first-trans next _
            (Apart-where_rows (selects w c) db.ledger (DistinctIds-Apart db.ledger distinct)))
      ∙ where_rows-agree next (newest_first last) _ (agrees last _ Every-remaining)
      ∙ ap (where_rows (newest_first last)) q
      ∙ where_rows-after newest_first newest_first-trans newest_first-asym last
          (newest_first_irrefl last) front rest
          (subst (Sorted newest_first newest_first-trans) q remaining-Sorted)

  -- A page of a wallet's ledger and what its next cursor leads to are together what its own cursor
  -- leads to, newest first and without a gap or a repetition; a page without a next cursor is all
  -- that is left. The limit is not zero, and no two entries of the ledger have the same id.
  pub fetch_ledger_page_lem :
      (limit : ℕ) → 1 ≤ limit → IsComplete w c limit db (fetch_ledger_page w c limit db)
  unfolding fetch_ledger_page find_many
  fetch_ledger_page_lem limit h =
      let rows = take (ℕ.suc limit) (remaining w c db) in
      elim (Bool-cases (ltb limit (length rows))) [
        | inr last_page ↦
            let whole = take_whole limit (remaining w c db) (ground arith) in
            inl (rw last_page refl, rw last_page whole)
        | inl more ↦
            let (front, rest, last, p, q, l) =
              split_page limit (remaining w c db) h (ground arith) in
            inr (
              encode_cursor last,
              rw more (ap last_cursor p ∙ last_cursor-snoc front last),
              rw more l,
              rw more (
                  ap (λ es. es ++ remaining w (some (encode_cursor last)) db) p
                  ∙ ap (λ es. (front ++ last ∷ []) ++ es) (remaining_after last front rest q)
                  ∙ snoc_append front rest last
                  ∙ sym q),
            )
      ]
