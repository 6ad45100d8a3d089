-- ===== src/Transaction/History.antt =====
-- src/modules/transaction: findByWalletPaginated of the repository and getTransactionHistory of the
-- service. The validators of the query make the page and the limit at least 1. The order of rows of
-- one time, which the database may choose anew for each query, is an argument.
use payment_wallet_system.Prelude.{ℕ, ◌+◌, ◌-◌, ◌*◌, ◌/◌, ◌||◌, ◌&&◌, ◌==◌, Bool, List, map, ltb}
use payment_wallet_system.Prelude.Lists.{length, take, drop}
use payment_wallet_system.Db.Schema.{Uuid, Transaction, Db}
use payment_wallet_system.Db.Query.{where_rows, order_by}
use payment_wallet_system.Db.Tx.{Tx, forbidden, wallet_not_found, gets, or_throw, pure, ◌>>=◌}
use payment_wallet_system.Wallet.{find_by_user_id}
use payment_wallet_system.Transaction.Service.{TransactionResult, to_result, names_wallet}

pub record PaginatedTransactions : Type 0 where
  pub items : List TransactionResult
  pub total : ℕ
  pub page : ℕ
  pub limit : ℕ
  pub total_pages : ℕ

abbrev pub of_wallet : Uuid → Transaction → Bool
of_wallet wallet_id t =
    names_wallet wallet_id t.sender_wallet_id || names_wallet wallet_id t.receiver_wallet_id

-- `orderBy: { createdAt: 'desc' }`, where the query reads rows of one time by their ranks.
abbrev pub latest_first : (Transaction → ℕ) → Transaction → Transaction → Bool
latest_first rank a b =
    ltb b.created_at a.created_at || (b.created_at == a.created_at && ltb (rank a) (rank b))

-- The page, and the number of all transactions of the wallet.
unfoldable pub find_by_wallet_paginated :
    (Transaction → ℕ) → Uuid → ℕ → ℕ → Db → List Transaction × ℕ
unfolding where_rows order_by
find_by_wallet_paginated rank wallet_id page limit db =
    let rows = where_rows (of_wallet wallet_id) db.transactions in
    (take limit (drop ((page - 1) * limit) (order_by (latest_first rank) rows)), length rows)

unfoldable pub get_transaction_history : (Transaction → ℕ) → Uuid → ℕ → ℕ → Tx PaginatedTransactions
unfolding find_by_wallet_paginated
get_transaction_history rank user_id page limit = do
  wallet ← or_throw (← gets (find_by_user_id user_id)) (forbidden wallet_not_found)
  found ← gets (find_by_wallet_paginated rank wallet.id page limit)
  pure (record {
    items = map to_result found.0;
    total = found.1;
    page = page;
    limit = limit;
    total_pages = (found.1 + (limit - 1)) / limit;
  })
