-- ===== src/Wallet/Pages.antt =====
-- src/modules/wallet: the pages of a wallet's ledger (findLedgerPage of wallet.repository.ts,
-- getMyLedger, getWalletLedger and fetchLedgerPage of wallet.service.ts). A cursor is kept as the pair
-- that it encodes, and an entry as it is stored.
use payment_wallet_system.Prelude.{
  ℕ, Option, none, some, Bool, true, ◌&&◌, ◌||◌, List, [], ◌∷◌, ltb, ◌==◌, if◌then◌else◌,
}
use payment_wallet_system.Prelude.Lists.{length, take}
use payment_wallet_system.Db.Schema.{Uuid, Time, LedgerEntry, Db}
use payment_wallet_system.Db.Query.{find_many}
use payment_wallet_system.Db.Tx.{Tx, not_found, wallet_not_found, gets, or_throw, ◌>>=◌}
use payment_wallet_system.Db.Writes.{find_wallet}
use payment_wallet_system.Wallet.{find_by_user_id}

pub record KeysetCursor : Type 0 where
  pub created_at : Time
  pub id : Uuid

pub record LedgerPageResult : Type 0 where
  pub entries : List LedgerEntry
  pub has_more : Bool

pub record LedgerPage : Type 0 where
  pub entries : List LedgerEntry
  pub next_cursor : Option KeysetCursor
  pub has_more : Bool

-- `orderBy: [{ createdAt: 'desc' }, { id: 'desc' }]`
abbrev pub newest_first : LedgerEntry → LedgerEntry → Bool
newest_first a b = ltb b.created_at a.created_at || (b.created_at == a.created_at && ltb b.id a.id)

-- The two clauses that the cursor adds to `where`.
abbrev pub beyond : Option KeysetCursor → LedgerEntry → Bool
beyond none e = true
beyond (some c) e = ltb e.created_at c.created_at || (e.created_at == c.created_at && ltb e.id c.id)

abbrev pub selects : Uuid → Option KeysetCursor → LedgerEntry → Bool
selects wallet_id cursor e = e.wallet_id == wallet_id && beyond cursor e

-- One row more than the page is asked for, to see whether there are more.
abbrev pub page_of : ℕ → List LedgerEntry → LedgerPageResult
page_of limit rows = record {
  entries = if ltb limit (length rows) then take limit rows else rows;
  has_more = ltb limit (length rows);
}

unfoldable pub find_ledger_page : Uuid → Option KeysetCursor → ℕ → Db → LedgerPageResult
unfolding find_many
find_ledger_page wallet_id cursor limit db =
    page_of limit (find_many (selects wallet_id cursor) newest_first (ℕ.suc limit) db.ledger)

abbrev pub encode_cursor : LedgerEntry → KeysetCursor
encode_cursor e = record { created_at = e.created_at; id = e.id }

-- The cursor of the last entry.
abbrev pub last_cursor : List LedgerEntry → Option KeysetCursor
last_cursor [] = none
last_cursor (e ∷ []) = some (encode_cursor e)
last_cursor (e ∷ (f ∷ es)) = last_cursor (f ∷ es)

abbrev pub ledger_page : LedgerPageResult → LedgerPage
ledger_page r = record {
  entries = r.entries;
  next_cursor = if r.has_more then last_cursor r.entries else none;
  has_more = r.has_more;
}

-- `fetchLedgerPage`
unfoldable pub fetch_ledger_page : Uuid → Option KeysetCursor → ℕ → Db → LedgerPage
unfolding find_ledger_page
fetch_ledger_page wallet_id cursor limit db =
    ledger_page (find_ledger_page wallet_id cursor limit db)

unfoldable pub get_my_ledger : Uuid → Option KeysetCursor → ℕ → Tx LedgerPage
unfolding fetch_ledger_page
get_my_ledger user_id cursor limit = do
  wallet ← or_throw (← gets (find_by_user_id user_id)) (not_found wallet_not_found)
  gets (fetch_ledger_page wallet.id cursor limit)

unfoldable pub get_wallet_ledger : Uuid → Option KeysetCursor → ℕ → Tx LedgerPage
unfolding fetch_ledger_page
get_wallet_ledger wallet_id cursor limit = do
  wallet ← or_throw (← gets (find_wallet wallet_id)) (not_found wallet_not_found)
  gets (fetch_ledger_page wallet_id cursor limit)
