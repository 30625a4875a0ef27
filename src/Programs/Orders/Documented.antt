-- ===== src/Programs/Orders/Documented.antt =====
-- What msghub documents of a hub, as far as adapters/hubmod/examples/orders relies on it.
use appmod.Common.{
  ℕ, zero, suc, ◌+◌, ◌==◌, Bool, true, false, Option, none, some, List, [], ◌∷◌, ◌≡◌,
}
use appmod.Base.Environment.{Ctx}
use appmod.Programs.Orders.{Broker, Order}

abbrev pub times {ℓ} : {A : Type ℓ} → ℕ → A → List A
times zero a = []
times (suc n) a = a ∷ times n a

abbrev pub bit : Bool → ℕ
bit false = 0
bit true = 1

-- What can be told of a hub: whether it is closed, the handler of an open subscription by its handle,
-- how many open subscriptions have a handler, and what was published and not handled yet.
pub record Sight (broker : Broker) : Type 0 where
  pub closed : broker.Hub → Bool
  pub owner : (handle : ℕ) → broker.Hub → Option ℕ
  pub reach : (handler : ℕ) → broker.Hub → ℕ
  pub queue : broker.Hub → List (ℕ × Order)

-- `msghub.New`: an open hub with no subscription.
pub record IsNew (broker : Broker) (sight : Sight broker) (h : broker.Hub) : Type 0 where
  pub open_hub : sight.closed h ≡ false
  pub queue : sight.queue h ≡ []
  pub reach : (f : ℕ) → sight.reach f h ≡ 0

-- Subscriptions are as they were.
pub record IsKept (broker : Broker) (sight : Sight broker) (h h' : broker.Hub) : Type 0 where
  pub closed : sight.closed h' ≡ sight.closed h
  pub owner : (s : ℕ) → sight.owner s h' ≡ sight.owner s h
  pub reach : (f : ℕ) → sight.reach f h' ≡ sight.reach f h

-- A subscription to an open hub is one more, under a new handle, until it is closed. A publication
-- runs the handler 0, which is synchronous, once for each of its subscriptions, and puts the event
-- in the queue of each subscription of the handler 1. A drain handles what is in the queues. No
-- context is done, so that nothing fails.
pub record IsDocumented (broker : Broker) (sight : Sight broker) : Type 0 where
  pub subscribes :
      (f : ℕ) (h : broker.Hub)
      → sight.closed h ≡ false
      → let r = broker.subscribe f h in
        (r.0.0 ≡ none)
        × (sight.closed r.1 ≡ false)
        × (sight.queue r.1 ≡ sight.queue h)
        × (sight.owner (r.0.1) h ≡ none)
        × (sight.owner (r.0.1) r.1 ≡ some f)
        × ((s : ℕ) → ¬ (s ≡ r.0.1) → sight.owner s r.1 ≡ sight.owner s h)
        × ((g : ℕ) → sight.reach g r.1 ≡ sight.reach g h + bit (g == f))
  pub unsubscribes :
      (s f : ℕ) (h : broker.Hub)
      → sight.closed h ≡ false
      → sight.owner s h ≡ some f
      → let h' = broker.close_subscription s h in
        (sight.closed h' ≡ false)
        × ((t : ℕ) → ¬ (t ≡ s) → sight.owner t h' ≡ sight.owner t h)
        × ((g : ℕ) → sight.reach g h ≡ sight.reach g h' + bit (g == f))
  pub no_new_events :
      (s : ℕ) (h : broker.Hub)
      → sight.queue h ≡ []
      → sight.queue (broker.close_subscription s h) ≡ []
  pub publishes :
      (ctx : Ctx) (o : Order) (h : broker.Hub)
      → sight.closed h ≡ false
      → sight.queue h ≡ []
      → let r = broker.publish ctx o h in
        (r.0.0 ≡ none)
        × (r.0.1 ≡ times (sight.reach 0 h) 0)
        × (sight.queue r.1 ≡ times (sight.reach 1 h) (1, o))
        × IsKept broker sight h r.1
  pub drains :
      (ctx : Ctx) (h : broker.Hub)
      → let r = broker.drain ctx h in
        (r.0.0 ≡ none)
        × (r.0.1 ≡ sight.queue h)
        × (sight.queue r.1 ≡ [])
        × IsKept broker sight h r.1
  pub closes :
      (ctx : Ctx) (h : broker.Hub)
      → sight.queue h ≡ []
      → let r = broker.close ctx h in (r.0 ≡ none) × (sight.queue r.1 ≡ [])
