-- ===== src/Books/Transfers.antt =====
-- What `TransactionService.transfer` posts.
pub mod Moves
use payment_wallet_system.Prelude.{
  ◌≡◌, refl, inl, inr, some, none, ◌++◌, [], ◌∷◌, arith, Option-cases, ◌==◌, if◌then◌else◌, ◌∙◌, ap,
  sym, subst,
}
use payment_wallet_system.Prelude.Int.{pos, ◌+ℤ◌, ◌-ℤ◌, ◌≤ℤ◌, int_laws}
use payment_wallet_system.Db.Schema.{Uuid, Decimal, Wallet, Transaction, Db, Payload}
use payment_wallet_system.Db.Table.{
  replace, find_unique_self, find_unique-column, find_unique-replace,
}
use payment_wallet_system.Db.Tx.{ok}
use payment_wallet_system.Db.Writes.{Stamp, find_wallet, find_transaction, find_key}
use payment_wallet_system.Transaction.{CreateTransactionInput, transfer_row, execute_transfer}
use payment_wallet_system.Transaction.Service.{
  TransferDto, transfer_tx, transfer_locked, transfer_payload,
}
use payment_wallet_system.Books.Effects.{
  Pot, available, locked, pending, in_pot, balance_in, balance, effect, share, transfer_effect,
}
use payment_wallet_system.Books.Posting.{Rewrites, balance-Rewrites, Rewrites-nonneg, Posts}

abbrev pub transfer_input : TransferDto → Uuid → Uuid → CreateTransactionInput
transfer_input dto from to = record {
  idempotency_key = dto.idempotency_key;
  amount = dto.amount;
  currency = dto.currency;
  description = dto.description;
  sender_wallet_id = some from;
  receiver_wallet_id = some to;
  provider = none;
}

abbrev pub debited : Wallet → Decimal → Wallet
debited w a = record w { available_balance = w.available_balance -ℤ a }

abbrev pub credited : Wallet → Decimal → Wallet
credited w a = record w { available_balance = w.available_balance +ℤ a }

-- What a transfer that went through has read and written: the sender first, then the receiver.
pub record Transferred (s : Stamp) (from to : Uuid) (dto : TransferDto) (db : Db) (t : Transaction)
    (db' : Db) : Type 0 where
  pub sender : Wallet
  pub receiver : Wallet
  pub sender_is : sender.id ≡ from
  pub receiver_is : receiver.id ≡ to
  pub covered : dto.amount ≤ℤ sender.available_balance
  pub mid : Db
  pub debits : Rewrites db sender (debited sender dto.amount) mid
  pub credits : Rewrites mid receiver (credited receiver dto.amount) db'
  pub row : t ≡ transfer_row s (transfer_input dto sender.id receiver.id)
  pub posted : db'.transactions ≡ db.transactions ++ t ∷ []
  pub fresh_id : find_transaction t.id db ≡ none
  pub fresh_key : find_key t.idempotency_key db ≡ none
  pub logs_kept : db'.payment_logs ≡ db.payment_logs

-- What `executeTransfer` writes besides the two ledger entries and the event.
record Executed (s : Stamp) (from to : Uuid) (dto : TransferDto) (db : Db) (t : Transaction)
    (db' : Db) : Type 0 where
  row : t ≡ transfer_row s (transfer_input dto from to)
  posted : db'.transactions ≡ db.transactions ++ t ∷ []
  fresh_id : find_transaction t.id db ≡ none
  fresh_key : find_key t.idempotency_key db ≡ none
  logs_kept : db'.payment_logs ≡ db.payment_logs
  wallets_kept : db'.wallets ≡ db.wallets

execute_transfer-Executed :
    (s : Stamp) (from to : Uuid) (dto : TransferDto) (x y : Decimal) (payload : Payload)
    (db db' : Db) (t : Transaction)
    → execute_transfer s (transfer_input dto from to) x y payload db ≡ ok (t, db')
    → Executed s from to dto db t db'
unfolding execute_transfer
execute_transfer-Executed s from to dto x y payload db db' t e = record {
  row = ground arith;
  posted = ground arith;
  fresh_id = ground arith;
  fresh_key = ground arith;
  logs_kept = ground arith;
  wallets_kept = ground arith;
}

-- The second write finds the row that the first has left there.
second_row : Wallet → Wallet → Decimal → Wallet
second_row a b amount = if a.id == b.id then debited a amount else b

abbrev after_debit : Wallet → Decimal → Db → Db
after_debit a amount db = record db {
  wallets = replace (λ v. v.id) a.id (debited a amount) db.wallets;
}

abbrev after_credit : Wallet → Wallet → Decimal → Db → Db
after_credit a b amount db =
    let mid = after_debit a amount db in
    record mid {
      wallets = replace (λ v. v.id) b.id (credited (second_row a b amount) amount) mid.wallets;
    }

transfer_locked-ok :
    (s : Stamp) (u : Uuid) (a b : Wallet) (dto : TransferDto) (db db' : Db) (t : Transaction)
    → find_wallet a.id db ≡ some a
    → find_wallet b.id db ≡ some b
    → transfer_locked s u a b dto db ≡ ok (t, db')
    → (dto.amount ≤ℤ a.available_balance)
      × Executed s a.id b.id dto (after_credit a b dto.amount db) t db'
unfolding transfer_locked second_row
transfer_locked-ok s u a b dto db db' t ea eb e = (
  ground arith,
  execute_transfer-Executed s a.id b.id dto (a.available_balance -ℤ dto.amount)
      ((second_row a b dto.amount).available_balance +ℤ dto.amount)
      (transfer_payload a.id u b.id dto.recipient_user_id dto.amount dto.currency)
      (after_credit a b dto.amount db) db' t
      (ground (
        arith,
        find_unique-replace (λ (v : Wallet). v.id) b.id a.id (debited a dto.amount) a db.wallets
            refl ea,
      )),
)

transfer_tx-locked :
    (s : Stamp) (u from to : Uuid) (dto : TransferDto) (db db' : Db) (t : Transaction)
    → transfer_tx s u from to dto db ≡ ok (t, db')
    → (a b : Wallet) × (a.id ≡ from)
      × (b.id ≡ to)
      × (find_wallet a.id db ≡ some a)
      × (find_wallet b.id db ≡ some b)
      × (transfer_locked s u a b dto db ≡ ok (t, db'))
unfolding transfer_tx
transfer_tx-locked s u from to dto db db' t e = elim (Option-cases (find_wallet from db)) [
  | inl missing ↦ ground arith
  | inr (a, ea) ↦ elim (Option-cases (find_wallet to db)) [
    | inl missing ↦ ground arith
    | inr (b, eb) ↦
        let is_a = find_unique-column (λ (v : Wallet). v.id) from db.wallets a ea in
        let is_b = find_unique-column (λ (v : Wallet). v.id) to db.wallets b eb in
        (
          a,
          b,
          is_a,
          is_b,
          find_unique_self (λ (v : Wallet). v.id) from db.wallets a ea,
          find_unique_self (λ (v : Wallet). v.id) to db.wallets b eb,
          ground arith,
        )
  ]
]

second_row-id : (a b : Wallet) (x : Decimal) → (second_row a b x).id ≡ b.id
unfolding second_row
second_row-id a b x = ground arith

second_row-found :
    (a b : Wallet) (x : Decimal) (db : Db)
    → find_wallet a.id db ≡ some a
    → find_wallet b.id db ≡ some b
    → find_wallet b.id (after_debit a x db) ≡ some (second_row a b x)
unfolding second_row
second_row-found a b x db ea eb =
    ground (
      arith,
      find_unique-replace (λ (v : Wallet). v.id) b.id a.id (debited a x) a db.wallets refl ea,
    )

pub transfer_tx-Transferred :
    (s : Stamp) (u from to : Uuid) (dto : TransferDto) (db db' : Db) (t : Transaction)
    → transfer_tx s u from to dto db ≡ ok (t, db')
    → Transferred s from to dto db t db'
transfer_tx-Transferred s u from to dto db db' t e =
    let (a, b, is_a, is_b, ea, eb, rest) = transfer_tx-locked s u from to dto db db' t e in
    let (covered, done) = transfer_locked-ok s u a b dto db db' t ea eb rest in
    record {
      sender = a;
      receiver = second_row a b dto.amount;
      sender_is = is_a;
      receiver_is = second_row-id a b dto.amount ∙ is_b;
      covered = covered;
      mid = after_debit a dto.amount db;
      debits = record { found = ea; same_id = refl; written = refl };
      credits = record {
        found =
            find_unique_self (λ (v : Wallet). v.id) b.id _ _
              (second_row-found a b dto.amount db ea eb);
        same_id = refl;
        written =
            done.wallets_kept
            ∙ ap
                (λ k.
                  replace (λ v. v.id) k (credited (second_row a b dto.amount) dto.amount)
                    (after_debit a dto.amount db).wallets)
                (sym (second_row-id a b dto.amount));
      };
      row =
          done.row
          ∙ ap (λ y. transfer_row s (transfer_input dto a.id y))
              (sym (second_row-id a b dto.amount));
      posted = done.posted;
      fresh_id = done.fresh_id;
      fresh_key = done.fresh_key;
      logs_kept = done.logs_kept;
    }

pub sender_delta :
    (p : Pot) (w : Wallet) (a : Decimal)
    → in_pot p (debited w a) ≡ in_pot p w +ℤ transfer_effect p a (pos 0)
sender_delta available w a = grind int_laws
sender_delta locked w a = grind int_laws
sender_delta pending w a = grind int_laws

pub receiver_delta :
    (p : Pot) (w : Wallet) (a : Decimal)
    → in_pot p (credited w a) ≡ in_pot p w +ℤ transfer_effect p (pos 0) a
receiver_delta available w a = grind int_laws
receiver_delta locked w a = grind int_laws
receiver_delta pending w a = grind int_laws
