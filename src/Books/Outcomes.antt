-- ===== src/Books/Outcomes.antt =====
-- What the four paths of the settlement service write.
use payment_wallet_system.Prelude.{
  ◌≡◌, refl, inl, inr, Option, some, none, String, ◌++◌, [], ◌∷◌, arith, Option-cases,
}
use payment_wallet_system.Db.Schema.{
  Uuid, Time, Decimal, Transaction, TransactionStatus, settled, EntryDirection, PaymentLog, Db,
}
use payment_wallet_system.Db.Table.{
  replace, replace-replace, find_unique-column, find_unique-replace,
}
use payment_wallet_system.Db.Tx.{ok}
use payment_wallet_system.Db.Writes.{Stamp, find_transaction, find_log}
use payment_wallet_system.Payment.Providers.{ProviderResult}
use payment_wallet_system.Payment.Repository.{truthy}
use payment_wallet_system.Payment.Settlement.{
  TransactionContext, record_outcome, finish_deposit, mark_settled,
}

-- The payment log that an outcome adds, the first of its transaction. Nothing else that the books
-- read is written.
pub record Logged (id : Uuid) (db db' : Db) : Type 0 where
  pub log : PaymentLog
  pub of_transaction : log.transaction_id ≡ id
  pub first : find_log id db ≡ none
  pub logged : db'.payment_logs ≡ db.payment_logs ++ log ∷ []
  pub wallets_kept : db'.wallets ≡ db.wallets
  pub transactions_kept : db'.transactions ≡ db.transactions

pub record_outcome-Logged :
    (s : Stamp) (ctx : TransactionContext) (event_id : Uuid) (result : ProviderResult)
    (status : TransactionStatus) (db db' : Db)
    → record_outcome s ctx event_id result status db ≡ ok (tt, db')
    → Logged ctx.id db db'
unfolding record_outcome
record_outcome-Logged s ctx event_id result status db db' e = elim (Option-cases ctx.provider) [
  | inl missing ↦ ground arith
  | inr (provider, got) ↦ record {
    log = record {
      id = s.log_id;
      transaction_id = ctx.id;
      provider = provider;
      provider_ref = result.provider_ref;
      payload = result.raw_response;
      status = status;
      created_at = s.now;
    };
    of_transaction = refl;
    first = ground arith;
    logged = ground arith;
    wallets_kept = ground arith;
    transactions_kept = ground arith;
  }
]

pub finish_deposit-Logged :
    (s : Stamp) (ctx : TransactionContext) (event_id : Uuid) (result : ProviderResult) (db db' : Db)
    → finish_deposit s ctx event_id result db ≡ ok (tt, db')
    → Logged ctx.id db db'
unfolding finish_deposit
finish_deposit-Logged s ctx event_id result db db' e = elim (Option-cases ctx.provider) [
  | inl missing ↦ ground arith
  | inr (provider, got) ↦ record {
    log = record {
      id = s.log_id;
      transaction_id = ctx.id;
      provider = provider;
      provider_ref = result.provider_ref;
      payload = result.raw_response;
      status = settled;
      created_at = s.now;
    };
    of_transaction = refl;
    first = ground arith;
    logged = ground arith;
    wallets_kept = ground arith;
    transactions_kept = ground arith;
  }
]

abbrev pub ref_or : Option String → Option String → Option String
ref_or old none = old
ref_or old (some r) = some r

abbrev pub settled_row : Time → Option String → Transaction → Transaction
settled_row now ref t = record t {
  status = settled;
  settled_at = some now;
  provider_ref = ref_or t.provider_ref ref;
}

-- The row of the transaction is replaced, and neither wallets nor payment logs change.
pub record Marked (new : Transaction) (id : Uuid) (db db' : Db) : Type 0 where
  pub written : db'.transactions ≡ replace (λ t. t.id) id new db.transactions
  pub wallets_kept : db'.wallets ≡ db.wallets
  pub logs_kept : db'.payment_logs ≡ db.payment_logs

pub mark_settled-Marked :
    (s : Stamp) (ctx : TransactionContext) (wallet_id : Uuid) (d : EntryDirection) (b : Decimal)
    (result : ProviderResult) (t : Transaction) (db db' : Db)
    → find_transaction ctx.id db ≡ some t
    → mark_settled s ctx wallet_id d b result db ≡ ok (tt, db')
    → Marked (settled_row s.now (truthy result.provider_ref) t) ctx.id db db'
unfolding mark_settled
mark_settled-Marked s ctx wallet_id d b result t db db' f e =
    elim (Option-cases (truthy result.provider_ref)) [
      | inl absent ↦ record {
        written = ground arith;
        wallets_kept = ground arith;
        logs_kept = ground arith;
      }
      | inr (r, present) ↦
          let same = find_unique-column (λ (v : Transaction). v.id) ctx.id db.transactions t f in
          let stamped : Transaction = record t { provider_ref = some r } in
          let twice =
            replace-replace (λ (v : Transaction). v.id) ctx.id stamped
              (settled_row s.now (some r) t) db.transactions same in
          let got =
            find_unique-replace (λ (v : Transaction). v.id) ctx.id ctx.id stamped t db.transactions
              same f in
          record { written = ground arith; wallets_kept = ground arith; logs_kept = ground arith }
    ]
