-- ===== src/Wallet/Listing.antt =====
-- src/modules/wallet: the list of wallets (findAll of wallet.repository.ts, listWallets of
-- wallet.service.ts) and the reads of one (getMyWallet, getWalletById). A cursor is kept as the pair
-- that it encodes, and a wallet as it is stored.
use payment_wallet_system.Prelude.{
  ℕ, Option, none, some, Bool, true, ◌&&◌, ◌||◌, List, [], ◌∷◌, ltb, ◌==◌, if◌then◌else◌,
}
use payment_wallet_system.Prelude.Lists.{length, take}
use payment_wallet_system.Db.Schema.{Uuid, AccountStatus, Currency, Wallet, Db}
use payment_wallet_system.Db.Query.{find_many}
use payment_wallet_system.Db.Tx.{Tx, not_found, wallet_not_found, gets, or_throw, ◌>>=◌}
use payment_wallet_system.Db.Writes.{find_wallet}
use payment_wallet_system.Accounts.Repository.{same_status, passes}
use payment_wallet_system.Wallet.{find_by_user_id, same_currency}
use payment_wallet_system.Wallet.Pages.{KeysetCursor}

pub record WalletFilters : Type 0 where
  pub status : Option AccountStatus
  pub currency : Option Currency

pub record WalletPageResult : Type 0 where
  pub wallets : List Wallet
  pub has_more : Bool

pub record WalletPage : Type 0 where
  pub wallets : List Wallet
  pub next_cursor : Option KeysetCursor
  pub has_more : Bool

-- `orderBy: [{ createdAt: 'desc' }, { id: 'desc' }]`
abbrev pub newest_wallet_first : Wallet → Wallet → Bool
newest_wallet_first a b =
    ltb b.created_at a.created_at || (b.created_at == a.created_at && ltb b.id a.id)

abbrev pub wallet_beyond : Option KeysetCursor → Wallet → Bool
wallet_beyond none w = true
wallet_beyond (some c) w =
    ltb w.created_at c.created_at || (w.created_at == c.created_at && ltb w.id c.id)

abbrev pub selects_wallet : WalletFilters → Option KeysetCursor → Wallet → Bool
selects_wallet f cursor w =
    (passes same_status f.status w.status && passes same_currency f.currency w.currency)
    && wallet_beyond cursor w

abbrev pub wallet_page_of : ℕ → List Wallet → WalletPageResult
wallet_page_of limit rows = record {
  wallets = if ltb limit (length rows) then take limit rows else rows;
  has_more = ltb limit (length rows);
}

unfoldable pub find_all_wallets : WalletFilters → Option KeysetCursor → ℕ → Db → WalletPageResult
unfolding find_many
find_all_wallets f cursor limit db =
    wallet_page_of limit
      (find_many (selects_wallet f cursor) newest_wallet_first (ℕ.suc limit) db.wallets)

abbrev pub encode_wallet_cursor : Wallet → KeysetCursor
encode_wallet_cursor w = record { created_at = w.created_at; id = w.id }

abbrev pub last_wallet_cursor : List Wallet → Option KeysetCursor
last_wallet_cursor [] = none
last_wallet_cursor (w ∷ []) = some (encode_wallet_cursor w)
last_wallet_cursor (w ∷ (v ∷ ws)) = last_wallet_cursor (v ∷ ws)

unfoldable pub list_wallets : WalletFilters → Option KeysetCursor → ℕ → Db → WalletPage
unfolding find_all_wallets
list_wallets f cursor limit db =
    let r = find_all_wallets f cursor limit db in
    record {
      wallets = r.wallets;
      next_cursor = if r.has_more then last_wallet_cursor r.wallets else none;
      has_more = r.has_more;
    }

unfoldable pub get_my_wallet : Uuid → Tx Wallet
get_my_wallet user_id = do or_throw (← gets (find_by_user_id user_id)) (not_found wallet_not_found)

unfoldable pub get_wallet_by_id : Uuid → Tx Wallet
get_wallet_by_id id = do or_throw (← gets (find_wallet id)) (not_found wallet_not_found)
