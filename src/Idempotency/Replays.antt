-- ===== src/Idempotency/Replays.antt =====
-- src/modules/transaction/transaction.service.ts: a request that is sent again.
use payment_wallet_system.Prelude.{
  ◌≡◌, refl, subst, ap, ◌∙◌, some, none, true, List, arith, Option-cases, Bool-cases, inl, inr,
  ◌==◌, if◌then◌else◌, ==_refl,
}
use payment_wallet_system.Prelude.Int.{pos, ◌≤ℤ◌}
use payment_wallet_system.Db.Schema.{Uuid, Transaction, Db}
use payment_wallet_system.Db.Table.{find_unique-snoc}
use payment_wallet_system.Db.Tx.{Tx, Result, ok, err, bad_request, transfer_to_yourself}
use payment_wallet_system.Db.Writes.{Stamp, find_key}
use payment_wallet_system.Wallet.{find_by_user_id}
use payment_wallet_system.Transaction.Service.{
  MoneyDto, TransferDto, MutationResult, replay_or, to_result, deposit, withdraw, transfer,
  deposit_tx, withdraw_tx, transfer_tx, transfer_between,
}
use payment_wallet_system.Books.Posting.{Posts}
use payment_wallet_system.Books.Deposits.{deposit_tx-Posts, key_of_deposit}
use payment_wallet_system.Books.Withdrawals.{withdraw_tx-Posts, key_of_withdrawal}
use payment_wallet_system.Books.Transfers.Moves.{transfer_tx-Posts, key_of_transfer}
use payment_wallet_system.Books.Soundness.{IsSound}
use payment_wallet_system.System.Steps.{Reach}
use payment_wallet_system.System.Changes.{Reach-IsSound}
use payment_wallet_system.System.Runs.{deposit-Reach, withdraw-Reach, transfer-Reach}
use payment_wallet_system.System.Requests.{Request, run, run-Reach}
use payment_wallet_system.Idempotency.Lasting.{Known, Reach-Known}

pub find_key-Posts :
    (key : Uuid) (db db' : Db) (t : Transaction)
    → Posts db t db'
    → t.idempotency_key ≡ key
    → find_key key db' ≡ some t
find_key-Posts key db db' t h k = rw h.posted (
    rw
      (find_unique-snoc (λ v. v.idempotency_key) key db.transactions t
        (subst (λ j. find_key j db ≡ none) k h.fresh_key))
      (rw k (rw (==_refl key) refl)))

-- What a first call has answered is what the check of the key finds.
answered_unseen :
    (key : Uuid) (m : Tx Transaction) (db db' : Db) (r : MutationResult)
    (p : Result (Transaction × Db))
    → m db ≡ p
    → find_key key db ≡ none
    → ((t : Transaction) (after : Db) → m db ≡ ok (t, after) → find_key key after ≡ some t)
    → replay_or key m db ≡ (ok r, db')
    → (t : Transaction) × (find_key key db' ≡ some t) × (to_result t ≡ r.content)
answered_unseen key m db db' r (ok (t, after)) e unseen h q =
    let same = h t after e in (t, ground arith, ground arith)
answered_unseen key m db db' r (err x) e unseen h q = ground arith

answered :
    (key : Uuid) (m : Tx Transaction) (db db' : Db) (r : MutationResult)
    → ((t : Transaction) (after : Db)
        → find_key key db ≡ none
        → m db ≡ ok (t, after)
        → find_key key after ≡ some t)
    → replay_or key m db ≡ (ok r, db')
    → (t : Transaction) × (find_key key db' ≡ some t) × (to_result t ≡ r.content)
answered key m db db' r h q = elim (Option-cases (find_key key db)) [
  | inl unseen ↦ answered_unseen key m db db' r (m db) refl unseen (λ t after. h t after unseen) q
  | inr (t, seen) ↦ (t, ground arith, ground arith)
]

-- The call has answered with the transaction that `r` is about, as a replay, and has written nothing.
abbrev pub IsReplay : MutationResult → Db → Result MutationResult × Db → Type 0
IsReplay r db p =
    (again : MutationResult) × (p ≡ (ok again, db))
    × (again.replayed ≡ true)
    × (again.content.id ≡ r.content.id)
    × (again.content.amount ≡ r.content.amount)

replay_or-Known :
    (key : Uuid) (m : Tx Transaction) (r : MutationResult) (t : Transaction) (db : Db)
    → to_result t ≡ r.content
    → Known key t db
    → IsReplay r db (replay_or key m db)
replay_or-Known key m r t db same k = (
  record { content = to_result k.row; replayed = true },
  let found = k.found in ground arith,
  refl,
  k.same_id ∙ ap (λ c. c.id) same,
  k.same_amount ∙ ap (λ c. c.amount) same,
)

-- The answer to a first call holds for every later one under its key.
replays :
    (key key' : Uuid) (m again : Tx Transaction) (db mid later : Db) (r : MutationResult)
    → IsSound db
    → Reach db (replay_or key m db).1
    → ((t : Transaction) (after : Db)
        → find_key key db ≡ none
        → m db ≡ ok (t, after)
        → find_key key after ≡ some t)
    → replay_or key m db ≡ (ok r, mid)
    → Reach mid later
    → key' ≡ key
    → IsReplay r later (replay_or key' again later)
replays key key' m again db mid later r sound first h e rest same_key =
    let (t, found, same) = answered key m db mid r h e in
    replay_or-Known key' again r t later same (
      rw same_key (
        Reach-Known rest (Reach-IsSound (subst (Reach db) (ap (λ p. p.1) e) first) sound)
          (record { row = t; found = found; same_id = refl; same_amount = refl })))

-- A deposit that has been answered is done once: in sound books, whatever is requested and polled
-- after it, a later deposit under its key, of any user, answers as a replay with the same
-- transaction and amount, and changes nothing. The amount of the first is not negative.
pub deposit-replays :
    (s s' : Stamp) (u u' : Uuid) (dto dto' : MoneyDto) (db mid : Db) (r : MutationResult)
    (qs : List Request)
    → IsSound db
    → pos 0 ≤ℤ dto.amount
    → deposit s u dto db ≡ (ok r, mid)
    → dto'.idempotency_key ≡ dto.idempotency_key
    → IsReplay r (run qs mid) (deposit s' u' dto' (run qs mid))
unfolding deposit
deposit-replays s s' u u' dto dto' db mid r qs sound paid e same =
    (replays dto.idempotency_key dto'.idempotency_key (deposit_tx s u dto) (deposit_tx s' u' dto')
      db mid (run qs mid) r sound (deposit-Reach s u dto db paid)
      (λ t after unseen done.
        find_key-Posts dto.idempotency_key db after t (deposit_tx-Posts s u dto db after t done)
          (key_of_deposit s u dto db after t done))
      e (run-Reach qs mid) same)

-- A withdrawal that has been answered is done once: in sound books, whatever is requested and
-- polled after it, a later withdrawal under its key, of any user, answers as a replay with the same
-- transaction and amount, and changes nothing. The amount of the first is not negative.
pub withdraw-replays :
    (s s' : Stamp) (u u' : Uuid) (dto dto' : MoneyDto) (db mid : Db) (r : MutationResult)
    (qs : List Request)
    → IsSound db
    → pos 0 ≤ℤ dto.amount
    → withdraw s u dto db ≡ (ok r, mid)
    → dto'.idempotency_key ≡ dto.idempotency_key
    → IsReplay r (run qs mid) (withdraw s' u' dto' (run qs mid))
unfolding withdraw
withdraw-replays s s' u u' dto dto' db mid r qs sound paid e same =
    (replays dto.idempotency_key dto'.idempotency_key (withdraw_tx s u dto) (withdraw_tx s' u' dto')
      db mid (run qs mid) r sound (withdraw-Reach s u dto db paid)
      (λ t after unseen done.
        find_key-Posts dto.idempotency_key db after t (withdraw_tx-Posts s u dto db after t done)
          (key_of_withdrawal s u dto db after t done))
      e (run-Reach qs mid) same)

transfer_between-find_key :
    (s : Stamp) (u : Uuid) (dto : TransferDto) (db after : Db) (t : Transaction)
    → transfer_between s u dto db ≡ ok (t, after)
    → find_key dto.idempotency_key after ≡ some t
transfer_between-find_key s u dto db after t e = elim (Option-cases (find_by_user_id u db)) [
  | inl missing ↦ ground arith
  | inr (a, ea) ↦ elim (Option-cases (find_by_user_id dto.recipient_user_id db)) [
    | inl missing ↦ ground arith
    | inr (b, eb) ↦
        let done : transfer_tx s u a.id b.id dto db ≡ ok (t, after) = ground arith in
        find_key-Posts dto.idempotency_key db after t
          (transfer_tx-Posts s u a.id b.id dto db after t done)
          (key_of_transfer s u a.id b.id dto db after t done)
  ]
]

-- A transfer that has been answered is done once: in sound books, whatever is requested and polled
-- after it, the same request of the same user answers as a replay with the same transaction and
-- amount, and changes nothing. The amount is not negative.
pub transfer-replays :
    (s s' : Stamp) (u : Uuid) (dto : TransferDto) (db mid : Db) (r : MutationResult)
    (qs : List Request)
    → IsSound db
    → pos 0 ≤ℤ dto.amount
    → transfer s u dto db ≡ (ok r, mid)
    → IsReplay r (run qs mid) (transfer s' u dto (run qs mid))
unfolding transfer
transfer-replays s s' u dto db mid r qs sound paid e =
    elim (Bool-cases (u == dto.recipient_user_id)) [
      | inl self ↦ ground arith
      | inr other ↦ rw other (
          replays dto.idempotency_key dto.idempotency_key (transfer_between s u dto)
            (transfer_between s' u dto) db mid (run qs mid) r sound
            (subst
              (λ b.
                Reach db
                  (if b
                    then (err (bad_request transfer_to_yourself), db)
                    else replay_or dto.idempotency_key (transfer_between s u dto) db).1)
              other (transfer-Reach s u dto db paid))
            (λ t after unseen done. transfer_between-find_key s u dto db after t done)
            (ground arith) (run-Reach qs mid) refl)
    ]
