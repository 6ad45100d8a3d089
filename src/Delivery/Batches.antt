-- ===== src/Delivery/Batches.antt =====
-- What `findPendingProviderEvents` selects.
use mathlib.Core.List.{Memᴰ}
use payment_wallet_system.Prelude.{
  ℕ, ◌≤◌, ◌<◌, ◌≡◌, ◌⊎◌, refl, inl, inr, none, true, List, [], ◌∷◌, arith,
}
use payment_wallet_system.Prelude.Lists.{length}
use payment_wallet_system.Db.Schema.{
  OutboxEvent, EventType, deposit_initiated, withdrawal_initiated, deposit_settled,
  transfer_settled, Db,
}
use payment_wallet_system.Db.Query.{
  Every, Every-find_many, Every-where_of, Every-order_by, length-find_many, Every-take, Ascending,
  where_rows, Ascending-find_many, Ascending-order_by, find_many,
}
use payment_wallet_system.Db.Members.{Every_self, mem-where_rows, mem-order_by, mem-take}
use payment_wallet_system.Payment.Repository.{
  is_pending_event, is_provider_event, find_pending_provider_events,
}

-- An event that a deposit or a withdrawal writes at its beginning, which is not delivered and has
-- retries left.
pub record IsPending (max_retries : ℕ) (e : OutboxEvent) : Type 0 where
  pub undelivered : e.delivered_at ≡ none
  pub retries_left : e.retry_count < max_retries
  pub of_provider : (e.event_type ≡ deposit_initiated) ⊎ (e.event_type ≡ withdrawal_initiated)

provider_type :
    (k : EventType)
    → is_provider_event k ≡ true
    → (k ≡ deposit_initiated) ⊎ (k ≡ withdrawal_initiated)
provider_type deposit_initiated h = inl refl
provider_type withdrawal_initiated h = inr refl
provider_type deposit_settled h = ground arith
provider_type transfer_settled h = ground arith

is_pending_event-IsPending :
    (max_retries : ℕ) (e : OutboxEvent)
    → is_pending_event max_retries e ≡ true
    → IsPending max_retries e
is_pending_event-IsPending max_retries e h = record {
  undelivered = ground arith;
  retries_left = ground arith;
  of_provider = provider_type e.event_type (ground arith);
}

IsPending-selected :
    (max_retries : ℕ) (e : OutboxEvent)
    → IsPending max_retries e
    → is_pending_event max_retries e ≡ true
IsPending-selected max_retries e p =
    let u = p.undelivered in
    let r = p.retries_left in elim p.of_provider [ inl d ↦ ground arith | inr w ↦ ground arith ]

Every-IsPending :
    (max_retries : ℕ) (es : List OutboxEvent)
    → Every (λ e. is_pending_event max_retries e ≡ true) es
    → Every (IsPending max_retries) es
Every-IsPending max_retries [] h = tt
Every-IsPending max_retries (e ∷ es) h =
    (is_pending_event-IsPending max_retries e h.0, Every-IsPending max_retries es h.1)

-- The batch has the event, or is full of events that are not newer.
abbrev pub Reaches : ℕ → List OutboxEvent → OutboxEvent → Type 0
Reaches limit batch e =
    Memᴰ e batch ⊎ ((length batch ≡ limit) × Every (λ f. f.created_at ≤ e.created_at) batch)

-- A batch has at most `limit` events, oldest first. Each of them is an event of the outbox which the
-- beginning of a deposit or of a withdrawal has written, which is not delivered and has fewer than
-- `max_retries` retries; and each such event of the outbox is in the batch, unless the batch is full
-- of events that are not newer.
pub find_pending_provider_events_lem :
    (limit max_retries : ℕ) (db : Db)
    → let batch = find_pending_provider_events limit max_retries db in
      (length batch ≤ limit)
      × Ascending (λ e. e.created_at) batch
      × Every (IsPending max_retries) batch
      × Every (λ e. Memᴰ e db.outbox) batch
      × ((e : OutboxEvent) → Memᴰ e db.outbox → IsPending max_retries e → Reaches limit batch e)
unfolding find_pending_provider_events find_many
find_pending_provider_events_lem limit max_retries db = (
  length-find_many (is_pending_event max_retries) _ limit db.outbox,
  Ascending-find_many (λ e. e.created_at) (is_pending_event max_retries) limit db.outbox,
  Every-IsPending max_retries _ (Every-find_many (is_pending_event max_retries) _ limit db.outbox),
  Every-take _ limit _ (
      Every-order_by _ _ _ (
        Every-where_of _ (is_pending_event max_retries) db.outbox
          (Every_self db.outbox db.outbox (λ x m. m)))),
  λ e m p.
      mem-take (λ f. f.created_at) limit e _
        (Ascending-order_by (λ f. f.created_at)
          (where_rows (is_pending_event max_retries) db.outbox))
        (mem-order_by _ e _ (
          mem-where_rows (is_pending_event max_retries) e db.outbox
            (IsPending-selected max_retries e p) m)),
)
