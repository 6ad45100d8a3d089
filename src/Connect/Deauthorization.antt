-- ===== src/Connect/Deauthorization.antt =====
-- src/modules/stripe-connect: what a deauthorization means for payouts.
use payment_wallet_system.Prelude.{
  String, ◌≡◌, refl, none, some, arith, ==_refl, subst, sym, ap, ◌∙◌,
}
use payment_wallet_system.Db.Schema.{User, Db, stripe}
use payment_wallet_system.Db.Table.{find_unique-replace, replace}
use payment_wallet_system.Db.Tx.{ok, Refuses}
use payment_wallet_system.Db.Writes.{Stamp, find_user, find_key}
use payment_wallet_system.Payment.Repository.{truthy}
use payment_wallet_system.Payment.Service.{CreatePayoutDto, create_payout, connect_account_of}
use payment_wallet_system.Accounts.Repository.{update_user}
use payment_wallet_system.Auth.Calls.{Server}
use payment_wallet_system.Refusals.{NoDestination, NoDestination-Refuses}
use payment_wallet_system.Connect.Service.{find_by_connect_account_id, clear_connect_account_id}
use payment_wallet_system.Connect.Webhook.{StripeEvent, handle_account_deauthorized}

cleared_tx :
    (u : User) (db : Db)
    → find_user u.id db ≡ some u
    → (db' : Db) × (clear_connect_account_id u.id db
        ≡ ok (record u { stripe_connect_account_id = none }, db'))
      × (find_user u.id db' ≡ some (record u { stripe_connect_account_id = none }))
unfolding clear_connect_account_id update_user
cleared_tx u db f =
    let new : User = record u { stripe_connect_account_id = none } in
    let there = find_unique-replace (λ x. x.id) u.id u.id new u db.users refl f in
    let same = ==_refl u.id in
    (record db { users = replace (λ x. x.id) u.id new db.users }, ground arith, ground arith)

-- An event says that the owner of an account has withdrawn the access to it. Once it is handled, and
-- as long as the row of the user who had that account stays as the handling leaves it, whatever else
-- changes, a request of this user for a payout by Stripe is refused under any new key: it throws and
-- changes nothing. Payouts that were accepted before are not concerned. The user's row is the one of
-- its id.
pub handle_account_deauthorized-Refuses :
    {R : Type 0} (event : StripeEvent) (a : String) (u : User) (stamp : Stamp)
    (dto : CreatePayoutDto) (s : Server R) (later : Db)
    → truthy event.account ≡ some a
    → find_by_connect_account_id a s.db ≡ some u
    → find_user u.id s.db ≡ some u
    → find_user u.id later ≡ find_user u.id (handle_account_deauthorized event s).1.db
    → dto.provider ≡ stripe
    → find_key dto.idempotency_key later ≡ none
    → Refuses later (create_payout stamp u.id dto later)
unfolding handle_account_deauthorized
handle_account_deauthorized-Refuses event a u stamp dto s later named held row stays by_stripe new =
    let (db, cleared, there) = cleared_tx u s.db row in
    let after : (handle_account_deauthorized event s).1.db ≡ db = ground arith in
    let nowhere : NoDestination dto.provider (find_user u.id later) =
      subst (λ p. NoDestination p (find_user u.id later)) (sym by_stripe)
        (ap connect_account_of (stays ∙ ap (find_user u.id) after ∙ there)) in
    NoDestination-Refuses stamp u.id dto later new nowhere
