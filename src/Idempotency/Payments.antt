-- ===== src/Idempotency/Payments.antt =====
-- src/modules/payment/payment.service.ts: a request that is sent again.
use payment_wallet_system.Prelude.{
  ◌≡◌, refl, subst, ap, ◌∙◌, some, none, List, arith, Option-cases, inl, inr,
}
use payment_wallet_system.Prelude.Int.{pos, ◌≤ℤ◌}
use payment_wallet_system.Db.Schema.{Uuid, Transaction, Db}
use payment_wallet_system.Db.Tx.{Tx, Result, ok, err}
use payment_wallet_system.Db.Writes.{Stamp, find_key}
use payment_wallet_system.Payment.Service.{
  ConfirmDepositDto, CreatePayoutDto, PaymentResult, payment_result, payment_replay_or,
  confirm_deposit, create_payout, confirm_deposit_tx, create_payout_tx,
}
use payment_wallet_system.Books.Confirmations.{confirm_deposit_tx-Posts, key_of_confirmation}
use payment_wallet_system.Books.Payouts.{create_payout_tx-Posts, key_of_payout}
use payment_wallet_system.Books.Soundness.{IsSound}
use payment_wallet_system.System.Steps.{Reach}
use payment_wallet_system.System.Changes.{Reach-IsSound}
use payment_wallet_system.System.Runs.{confirm_deposit-Reach, create_payout-Reach}
use payment_wallet_system.System.Requests.{Request, run, run-Reach}
use payment_wallet_system.Idempotency.Lasting.{Known, Reach-Known}
use payment_wallet_system.Idempotency.Replays.{find_key-Posts}

-- The call has answered with the transaction that `r` is about, and has written nothing.
abbrev pub IsPaymentReplay : PaymentResult → Db → Result PaymentResult × Db → Type 0
IsPaymentReplay r db p =
    (again : PaymentResult) × (p ≡ (ok again, db)) × (again.transaction_id ≡ r.transaction_id)

payment_answered_unseen :
    (key : Uuid) (m : Tx Transaction) (db db' : Db) (r : PaymentResult)
    (p : Result (Transaction × Db))
    → m db ≡ p
    → find_key key db ≡ none
    → ((t : Transaction) (after : Db) → m db ≡ ok (t, after) → find_key key after ≡ some t)
    → payment_replay_or key m db ≡ (ok r, db')
    → (t : Transaction) × (find_key key db' ≡ some t) × (payment_result t ≡ r)
payment_answered_unseen key m db db' r (ok (t, after)) e unseen h q =
    let same = h t after e in (t, ground arith, ground arith)
payment_answered_unseen key m db db' r (err x) e unseen h q = ground arith

payment_answered :
    (key : Uuid) (m : Tx Transaction) (db db' : Db) (r : PaymentResult)
    → ((t : Transaction) (after : Db)
        → find_key key db ≡ none
        → m db ≡ ok (t, after)
        → find_key key after ≡ some t)
    → payment_replay_or key m db ≡ (ok r, db')
    → (t : Transaction) × (find_key key db' ≡ some t) × (payment_result t ≡ r)
payment_answered key m db db' r h q = elim (Option-cases (find_key key db)) [
  | inl unseen ↦
      payment_answered_unseen key m db db' r (m db) refl unseen (λ t after. h t after unseen) q
  | inr (t, seen) ↦ (t, ground arith, ground arith)
]

payment_replay_or-Known :
    (key : Uuid) (m : Tx Transaction) (r : PaymentResult) (t : Transaction) (db : Db)
    → payment_result t ≡ r
    → Known key t db
    → IsPaymentReplay r db (payment_replay_or key m db)
payment_replay_or-Known key m r t db same k = (
  payment_result k.row,
  let found = k.found in ground arith,
  k.same_id ∙ ap (λ c. c.transaction_id) same,
)

-- The answer to a first call holds for every later one under its key.
payment_replays :
    (key key' : Uuid) (m again : Tx Transaction) (db mid later : Db) (r : PaymentResult)
    → IsSound db
    → Reach db (payment_replay_or key m db).1
    → ((t : Transaction) (after : Db)
        → find_key key db ≡ none
        → m db ≡ ok (t, after)
        → find_key key after ≡ some t)
    → payment_replay_or key m db ≡ (ok r, mid)
    → Reach mid later
    → key' ≡ key
    → IsPaymentReplay r later (payment_replay_or key' again later)
payment_replays key key' m again db mid later r sound first h e rest same_key =
    let (t, found, same) = payment_answered key m db mid r h e in
    payment_replay_or-Known key' again r t later same (
      rw same_key (
        Reach-Known rest (Reach-IsSound (subst (Reach db) (ap (λ p. p.1) e) first) sound)
          (record { row = t; found = found; same_id = refl; same_amount = refl })))

-- A confirmed deposit that has been answered is done once: in sound books, whatever is requested and
-- polled after it, a later confirmation under its key, of any user, answers with the same transaction
-- and changes nothing. The amount of the first is not negative.
pub confirm_deposit-replays :
    (s s' : Stamp) (u u' : Uuid) (dto dto' : ConfirmDepositDto) (db mid : Db) (r : PaymentResult)
    (qs : List Request)
    → IsSound db
    → pos 0 ≤ℤ dto.amount
    → confirm_deposit s u dto db ≡ (ok r, mid)
    → dto'.idempotency_key ≡ dto.idempotency_key
    → IsPaymentReplay r (run qs mid) (confirm_deposit s' u' dto' (run qs mid))
unfolding confirm_deposit
confirm_deposit-replays s s' u u' dto dto' db mid r qs sound paid e same =
    payment_replays dto.idempotency_key dto'.idempotency_key (confirm_deposit_tx s u dto)
      (confirm_deposit_tx s' u' dto') db mid (run qs mid) r sound
      (confirm_deposit-Reach s u dto db paid)
      (λ t after unseen done.
        find_key-Posts dto.idempotency_key db after t
          (confirm_deposit_tx-Posts s u dto db after t done)
          (key_of_confirmation s u dto db after t done))
      e (run-Reach qs mid) same

-- A payout that has been answered is done once: in sound books, whatever is requested and polled
-- after it, a later payout under its key, of any user, answers with the same transaction and changes
-- nothing. The amount of the first is not negative.
pub create_payout-replays :
    (s s' : Stamp) (u u' : Uuid) (dto dto' : CreatePayoutDto) (db mid : Db) (r : PaymentResult)
    (qs : List Request)
    → IsSound db
    → pos 0 ≤ℤ dto.amount
    → create_payout s u dto db ≡ (ok r, mid)
    → dto'.idempotency_key ≡ dto.idempotency_key
    → IsPaymentReplay r (run qs mid) (create_payout s' u' dto' (run qs mid))
unfolding create_payout
create_payout-replays s s' u u' dto dto' db mid r qs sound paid e same =
    payment_replays dto.idempotency_key dto'.idempotency_key (create_payout_tx s u dto)
      (create_payout_tx s' u' dto') db mid (run qs mid) r sound
      (create_payout-Reach s u dto db paid)
      (λ t after unseen done.
        find_key-Posts dto.idempotency_key db after t
          (create_payout_tx-Posts s u dto db after t done) (key_of_payout s u dto db after t done))
      e (run-Reach qs mid) same
