-- ===== src/Lib.antt =====
-- The payment wallet system: the money in its wallets, transactions and outbox, with the providers
-- that settle what a wallet cannot settle by itself, and the accounts, sessions and tokens that let a
-- user at it.
--
-- A wallet holds what is available, what is locked for withdrawals and what is pending from
-- deposits. A request is validated by its DTO, checked against its idempotency key, and carried out
-- in one database transaction, which locks the wallets that it needs, moves their balances, and writes
-- a transaction, in some cases ledger entries, and an event of the outbox. A cron job takes the events
-- of deposits and withdrawals from the outbox, calls the provider's adapter for each, and settles or
-- fails the transaction or leaves it to a webhook.
--
-- A user registers, logs in and is given an access token, which is signed, and a refresh token, whose
-- hash is a row of the database. A refresh replaces the row and keeps the answer in Redis, encrypted,
-- for the seconds of grace in which the old token may come again. Each request is let in by its access
-- token, unless the token is on the denylist in Redis or the account is not active. Closing an
-- account, a new password and logging out end sessions. An account at Stripe is created for a user who
-- asks for payouts there, and a webhook says when it is withdrawn. What any of this throws becomes a
-- response in the exception filter.
--
-- The files, and the code that they model (paths from the repository's root):
--   Prelude, Prelude/Tests, Prelude/Int, Prelude/Lists, Prelude/Texts: shared names, Boolean tests,
--     signed integers over the native numbers, sums, and trim.
--   Db/Schema, Db/Table, Db/Query, Db/Tx, Db/Writes: prisma/schema.prisma and what the code uses of
--     the database. Tables are lists of rows; a write checks primary keys, unique columns and the
--     range of Decimal(18, 4); a callback of $transaction is a function from a database to a result
--     with a new database, or an exception that carries none.
--   Wallet: src/modules/wallet/wallet.repository.ts. Reads by user, the row lock, the two guards, and
--     the updates creditAvailable, debitAvailableAndLock, creditPending, settlePending,
--     settleWithdrawal and debitAvailable.
--   Wallet/Pages: the ledger pages of src/modules/wallet (findLedgerPage, fetchLedgerPage, getMyLedger,
--     getWalletLedger).
--   Wallet/Listing: findAll, listWallets, getMyWallet and getWalletById of src/modules/wallet.
--   Transaction, Transaction/Service: src/modules/transaction. initiateDeposit, initiateWithdrawal and
--     executeTransfer of the repository; deposit, withdraw, transfer and getTransaction of the
--     service. What the database generates, ids and times, is a Stamp.
--   Transaction/History, Transaction/Statuses: findByWalletPaginated and getTransactionHistory; and the
--     methods of transaction.repository.ts that nothing calls.
--   Payment/Repository, Payment/Service, Payment/Providers, Payment/Settlement, Payment/Processor:
--     src/modules/payment, and upsertBraintreeCustomerId of src/modules/user/users.repository.ts.
--   Payment/Intents: createDepositIntent of the service and of the adapters in src/modules/payment.
--   Payment/Tokens: src/modules/payment/providers/paypal-token.client.ts.
--   Books: what the transactions say that each wallet holds, and what each callback writes.
--   System: committed database transactions in any order (Steps), what each call commits (Runs,
--     Polls), and histories of requests and outbox runs (Requests).
--   Idempotency: repeated requests, requests that run side by side, and repeated outcomes.
--   Delivery: what a batch takes from the outbox, and what becomes of an event; in Retries, of the events
--     that deposit and withdraw write.
--   Session: the refresh tokens of src/modules/auth/auth.repository.ts; the rows that one batch of the
--     cleanup deletes are the first that have expired.
--   Sessions: rotation, revocation, the bound on sessions, the cleanup; and in Standing, Refinement and
--     Histories the sessions that the table of tokens stands for, and what each call means for them.
--   Pages, Pages/Numbered: the pages of a ledger and of a history, one after another.
--   Accounts/Repository, Accounts/Service: src/modules/user, and the users of
--     src/modules/auth/auth.repository.ts (createUserWithWallet, findByEmail).
--   Auth/Outside: what the accounts call and do not define: Redis, argon2, the signing of JWTs, the
--     cipher and the hash of node:crypto, JSON of a pair of tokens, and the lower case of a text. Each
--     is an operation of a record, with what is documented of it as laws.
--   Auth/Expiry, Auth/Tokens, Auth/Sessions, Auth/Service, Auth/Guard, Auth/Cleanup: src/modules/auth
--     (token.service.ts, session.service.ts, token-denylist.service.ts, auth.service.ts,
--     strategies/jwt.strategy.ts, token-cleanup.service.ts). Auth/Calls has the state of a call, which
--     is the database and Redis; what a call reads from the clock or draws at random is a Draw.
--   Auth/Sealing: src/modules/crypto/crypto.service.ts.
--   Access: what opens and what ends a user's access.
--   Connect: src/modules/stripe-connect (the service, the repository, the webhook's service and its
--     controller), what the webhook answers, and what all this means for payouts.
--   Filter: src/common/filters/http-exception.filter.ts.
--   Acceptance, Refusals: when a request is carried out, and when it changes nothing.
--   Tests: runs on concrete data, and the theorems applied to them.
--
-- Bounds. A UUID and a time are natural numbers, of which the code uses only equality and order. An
-- amount is the integer of its ten-thousandths. A batch has at most 100 events with fewer than 5
-- retries, as in the code. The loops go through lists, but for that of the cleanup of refresh tokens,
-- which has fuel, and for which more fuel than there are tokens is enough. A provider may answer in
-- any way that the types of its library allow; those answers are parameters. An empty text counts as
-- absent where the code tests for truth.
--
-- Concurrency. Postgres' row locks make the callbacks that touch a wallet follow one another; the
-- steps of System are whole callbacks, so that two calls interleave between their reads and their
-- callbacks, and a settlement may act on a row read before other transactions have committed. Closing
-- an account reads the wallet without a lock: what its callback sees of the wallet is an argument,
-- which may be older than the database that it writes.
--
-- Order and time. The order in which a query of the history reads transactions of one time is an
-- argument of that query. The cleanup of tokens reads the clock for each batch; in the model all batches
-- of a run have the same time, so that what expires meanwhile waits for the next run.
--
-- Redis and the clock. A call has one time. Any call of Redis may fail; one that is caught and logged
-- goes on with whatever state it left. The lock of the cleanup is modelled, that of the outbox is a
-- flag.
--
-- Not modelled: the lapse of the outbox's lock in Redis, serialisation to JSON, the audit log and the
-- log lines, the validators of the DTOs but for positive amounts, the text of a cursor, and routing and
-- set-up of the framework.
pub mod Prelude
pub mod Db
pub mod Wallet
pub mod Transaction
pub mod Books
pub mod Connect
pub mod Payment
pub mod Pages
pub mod Session
pub mod Sessions
pub mod System
pub mod Tests
pub mod Filter
pub mod Idempotency
pub mod Delivery
pub mod Acceptance
pub mod Access
pub mod Accounts
pub mod Auth
pub mod Refusals
