-- ===== src/System/Requests.antt =====
-- A whole history: requests that have passed the validation of their body, and outbox runs.
use payment_wallet_system.Prelude.{
  List, [], ◌∷◌, Bool, false, if◌then◌else◌, Bool-cases, inl, inr, arith,
}
use payment_wallet_system.Prelude.Int.{pos, ◌≤ℤ◌, ltb_ℤ}
use payment_wallet_system.Db.Schema.{Uuid, Decimal, Db}
use payment_wallet_system.Db.Writes.{Stamp}
use payment_wallet_system.Transaction.Service.{MoneyDto, TransferDto, deposit, withdraw, transfer}
use payment_wallet_system.Payment.Service.{
  ConfirmDepositDto, CreatePayoutDto, confirm_deposit, create_payout,
}
use payment_wallet_system.Payment.Processor.{Env, process_outbox}
use payment_wallet_system.Books.Effects.{Pot, balance}
use payment_wallet_system.Books.Soundness.{IsSound, IsSound-nonneg}
use payment_wallet_system.System.Steps.{Reach, here, Reach-trans}
use payment_wallet_system.System.Changes.{Reach-IsSound}
use payment_wallet_system.System.Runs.{
  deposit-Reach, withdraw-Reach, transfer-Reach, confirm_deposit-Reach, create_payout-Reach,
}
use payment_wallet_system.System.Polls.{process_outbox-Reach}

pub data Request : Type 0 where
  post_deposit post_withdrawal : Stamp → Uuid → MoneyDto → Request
  post_transfer : Stamp → Uuid → TransferDto → Request
  post_confirmation : Stamp → Uuid → ConfirmDepositDto → Request
  post_payout : Stamp → Uuid → CreatePayoutDto → Request
  poll : Env → Request

-- `@IsPositive()` and `@Min(0.0001)` on the amount of each body; what fails them never reaches the
-- service.
abbrev pub is_positive : Decimal → Bool
is_positive a = ltb_ℤ (pos 0) a

-- `@IsPositive()` guards the service.
abbrev pub validated : Decimal → Db → Db → Db
validated amount served db = if is_positive amount then served else db

unfoldable pub serve : Request → Db → Db
unfolding deposit withdraw transfer confirm_deposit create_payout process_outbox
serve (post_deposit s u dto) db = validated dto.amount (deposit s u dto db).1 db
serve (post_withdrawal s u dto) db = validated dto.amount (withdraw s u dto db).1 db
serve (post_transfer s u dto) db = validated dto.amount (transfer s u dto db).1 db
serve (post_confirmation s u dto) db = validated dto.amount (confirm_deposit s u dto db).1 db
serve (post_payout s u dto) db = validated dto.amount (create_payout s u dto db).1 db
serve (poll env) db = (process_outbox env (record { lock_held = false; db = db })).db

unfoldable pub run : List Request → Db → Db
unfolding serve
run [] db = db
run (q ∷ qs) db = run qs (serve q db)

validated-Reach :
    (a : Decimal) (served db : Db)
    → (pos 0 ≤ℤ a → Reach db served)
    → Reach db (validated a served db)
validated-Reach a served db h = elim (Bool-cases (is_positive a)) [
  | inl fine ↦ rw (fine, validated) (h (ground arith))
  | inr refused ↦ rw (refused, validated) here
]

pub serve-Reach : (q : Request) (db : Db) → Reach db (serve q db)
unfolding serve
serve-Reach (post_deposit s u dto) db = validated-Reach dto.amount _ db (deposit-Reach s u dto db)
serve-Reach (post_withdrawal s u dto) db =
    validated-Reach dto.amount _ db (withdraw-Reach s u dto db)
serve-Reach (post_transfer s u dto) db = validated-Reach dto.amount _ db (transfer-Reach s u dto db)
serve-Reach (post_confirmation s u dto) db =
    validated-Reach dto.amount _ db (confirm_deposit-Reach s u dto db)
serve-Reach (post_payout s u dto) db =
    validated-Reach dto.amount _ db (create_payout-Reach s u dto db)
serve-Reach (poll env) db = process_outbox-Reach env (record { lock_held = false; db = db })

pub run-Reach : (qs : List Request) (db : Db) → Reach db (run qs db)
unfolding run
run-Reach [] db = here
run-Reach (q ∷ qs) db = Reach-trans (serve-Reach q db) (run-Reach qs (serve q db))

-- After any list of validated requests and outbox runs that begins with sound books the books are
-- sound: every balance of every wallet is the sum of what the transactions contribute to it, a
-- payment log stands for exactly the deposits and withdrawals that are settled or failed, and no
-- amount and no available balance is negative.
pub run-IsSound : (qs : List Request) (db : Db) → IsSound db → IsSound (run qs db)
run-IsSound qs db sound = Reach-IsSound (run-Reach qs db) sound

-- After any list of validated requests and outbox runs that begins with sound books, no balance of any
-- wallet is negative: neither what is available, nor what is locked, nor what is pending.
pub run-nonneg :
    (qs : List Request) (db : Db) (p : Pot) (id : Uuid)
    → IsSound db
    → pos 0 ≤ℤ balance p id (run qs db)
run-nonneg qs db p id sound = IsSound-nonneg (run qs db) (run-IsSound qs db sound) p id
