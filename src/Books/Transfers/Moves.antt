-- ===== src/Books/Transfers/Moves.antt =====
-- What `TransactionService.transfer` does to the books.
use payment_wallet_system.Prelude.{◌≡◌, some, ◌==◌, if◌then◌else◌, ◌∙◌, ap, sym, subst}
use payment_wallet_system.Prelude.Int.{pos, ◌+ℤ◌, ◌≤ℤ◌, int_laws}
use payment_wallet_system.Db.Schema.{Uuid, Decimal, Transaction, Db}
use payment_wallet_system.Db.Tx.{ok}
use payment_wallet_system.Db.Writes.{Stamp}
use payment_wallet_system.Transaction.Service.{TransferDto, transfer_tx}
use payment_wallet_system.Books.Effects.{
  Pot, available, locked, pending, balance_in, balance, effect, share, transfer_effect,
}
use payment_wallet_system.Books.Posting.{balance-Rewrites, Rewrites-nonneg, Posts}
use payment_wallet_system.Books.Transfers.{
  debited, credited, Transferred, sender_delta, receiver_delta, transfer_tx-Transferred,
}

transfer_share :
    (p : Pot) (b : Decimal) (from to j : Uuid) (a : Decimal)
    → b
        +ℤ (if from == j then transfer_effect p a (pos 0) else pos 0)
        +ℤ (if to == j then transfer_effect p (pos 0) a else pos 0)
      ≡ b +ℤ transfer_effect p (share j (some from) a) (share j (some to) a)
transfer_share available b from to j a = grind int_laws
transfer_share locked b from to j a = grind int_laws
transfer_share pending b from to j a = grind int_laws

module _ (s : Stamp) (u from to : Uuid) (dto : TransferDto) (db db' : Db) (t : Transaction)
    (e : transfer_tx s u from to dto db ≡ ok (t, db')) where
  transferred : Transferred s from to dto db t db'
  transferred = transfer_tx-Transferred s u from to dto db db' t e

  transfer_tx-moved : (p : Pot) (j : Uuid) → balance p j db' ≡ balance p j db +ℤ effect p j t
  unfolding effect
  transfer_tx-moved p j =
      let d = transferred in
      balance-Rewrites p j (transfer_effect p (pos 0) dto.amount) d.mid db' d.receiver
        (credited d.receiver dto.amount) d.credits (receiver_delta p d.receiver dto.amount)
      ∙ ap (λ b. b +ℤ (if d.receiver.id == j then transfer_effect p (pos 0) dto.amount else pos 0))
          (balance-Rewrites p j (transfer_effect p dto.amount (pos 0)) db d.mid d.sender
            (debited d.sender dto.amount) d.debits (sender_delta p d.sender dto.amount))
      ∙ transfer_share p (balance p j db) d.sender.id d.receiver.id j dto.amount
      ∙ ap (λ r. balance p j db +ℤ effect p j r) (sym d.row)

  -- A transfer posts its transaction: the amount leaves one available balance and joins the other.
  pub transfer_tx-Posts : Posts db t db'
  transfer_tx-Posts =
      let d = transferred in
      record {
        posted = d.posted;
        moved = transfer_tx-moved;
        fresh_id = d.fresh_id;
        fresh_key = d.fresh_key;
        no_log_yet = rw d.row;
        logs_kept = d.logs_kept;
      }

  -- The sender can pay, and the receiver gets no less than nothing.
  pub transfer_tx-covered :
      pos 0 ≤ℤ dto.amount
      → ((j : Uuid) → pos 0 ≤ℤ balance available j db)
      → (j : Uuid) → pos 0 ≤ℤ balance available j db'
  transfer_tx-covered positive h j =
      Rewrites-nonneg available j d.mid db' d.receiver (credited d.receiver dto.amount) d.credits
        (grind (int_laws, positive, receiver_nonneg)) (sender_after j)
    where
      d : Transferred s from to dto db t db'
      d = transferred

      sender_after : (i : Uuid) → pos 0 ≤ℤ balance available i d.mid
      sender_after i =
          Rewrites-nonneg available i db d.mid d.sender (debited d.sender dto.amount) d.debits
            (grind (int_laws, d.covered)) (h i)

      receiver_nonneg : pos 0 ≤ℤ d.receiver.available_balance
      receiver_nonneg =
          subst (λ o. pos 0 ≤ℤ balance_in available o) d.credits.found (sender_after d.receiver.id)

pub amount_of_transfer :
    (s : Stamp) (u from to : Uuid) (dto : TransferDto) (db db' : Db) (t : Transaction)
    → transfer_tx s u from to dto db ≡ ok (t, db')
    → t.amount ≡ dto.amount
amount_of_transfer s u from to dto db db' t e =
    rw (transfer_tx-Transferred s u from to dto db db' t e).row

pub key_of_transfer :
    (s : Stamp) (u from to : Uuid) (dto : TransferDto) (db db' : Db) (t : Transaction)
    → transfer_tx s u from to dto db ≡ ok (t, db')
    → t.idempotency_key ≡ dto.idempotency_key
key_of_transfer s u from to dto db db' t e =
    rw (transfer_tx-Transferred s u from to dto db db' t e).row
