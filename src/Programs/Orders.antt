-- ===== src/Programs/Orders.antt =====
-- adapters/hubmod/examples/orders/main.go: a bus, two modules that subscribe to it, and a shop.
pub mod Parts
pub mod Documented
pub mod Moves
pub mod Standing
pub mod Joining
pub mod Restarts
pub mod Graph
pub mod Starting
pub mod Stopping
pub mod Falling
pub mod Running
use appmod.Common.{
  ℕ, zero, suc, ◌+◌, ◌==◌, Name, Bool, true, false, Option, none, some, List, [], ◌∷◌, ◌++◌,
  if◌then◌else◌,
}
use appmod.Errors.{Err, sentinel, nil_hub}
use appmod.Base.Environment.{Environment, Ctx, View, Call, Effect, returned}
use appmod.Registry.{Registry, Value, Types, Found, interface, pointer, impl, missing}
use appmod.Hub.{Bus, Shared, require_hub, subscribe_module}

pub record Order : Type 0 where
  pub id : Name
  pub item : Name
  pub qty : ℕ

-- msghub, with one topic. A subscription has a handle, and a handler: that of the inventory is 0,
-- and that of the mailer is 1. `subscribe` returns the error and the handle, `publish` the error
-- and the handlers that it ran, and `drain` the error and the handlers that ran while it waited,
-- with their orders.
pub record Broker : Type 1 where
  pub Hub : Type 0
  pub subscribe : (handler : ℕ) → Hub → (Option Err × ℕ) × Hub
  pub close_subscription : (handle : ℕ) → Hub → Hub
  pub publish : Ctx → Order → Hub → (Option Err × List ℕ) × Hub
  pub drain : Ctx → Hub → (Option Err × List (ℕ × Order)) × Hub
  pub close : Ctx → Hub → Option Err × Hub

-- The hub, the field `sent` of the mailer, the field `bus` of the shop, and what was printed: the
-- orders that were reserved, confirmed and placed, and the tallies of the mailer.
pub record Desk (H : Type 0) : Type 0 where
  pub hub : H
  pub sent : ℕ
  pub shop_bus : Option Value
  pub reserved : List Order
  pub mailed : List Order
  pub placed : List Order
  pub tallies : List ℕ

-- The contract `*msghub.Hub`, and the one hub.
abbrev pub hub_contract : ℕ
hub_contract = 0

abbrev pub hub_types : Types
hub_types = record { kind = λ t. pointer; asserts = λ t dynamic. t == dynamic }

abbrev pub bus_value : Value
bus_value = record { dynamic = hub_contract; is_nil = false; content = 0 }

module _ (broker : Broker) (ctx_err : ℕ → Desk (broker.Hub) → Option Err) where
  abbrev pub D : Type 0
  D = Desk (broker.Hub)

  -- The handlers of the inventory and the mailer. Both return nil.
  unfoldable pub handle : ℕ → Order → D → D
  handle zero o d = record d { reserved = d.reserved ++ o ∷ [] }
  handle (suc f) o d = record d { mailed = d.mailed ++ o ∷ []; sent = d.sent + 1 }

  unfoldable pub handle_each : List ℕ → Order → D → D
  unfolding handle
  handle_each [] o d = d
  handle_each (f ∷ fs) o d = handle_each fs o (handle f o d)

  unfoldable pub handle_queue : List (ℕ × Order) → D → D
  unfolding handle
  handle_queue [] d = d
  handle_queue ((f, o) ∷ fs) d = handle_queue fs (handle f o d)

  -- `bus.Drain` and `bus.Close`.
  unfoldable pub drain_desk : Ctx → D → Option Err × D
  unfolding handle_queue
  drain_desk ctx d =
      let ((e, ran), h) = broker.drain ctx d.hub in (e, handle_queue ran (record d { hub = h }))

  unfoldable pub close_desk : Ctx → D → Option Err × D
  close_desk ctx d = let (e, h) = broker.close ctx d.hub in (e, record d { hub = h })

  -- What the adapter is given: the module of the bus has no closures but the adapter's.
  abbrev pub desk_bus : Bus
  desk_bus = record {
    env = record {
      World = D;
      ctx_err = ctx_err;
      call_hook = λ fn ctx v d. (record { effects = []; outcome = returned none }, d);
      call_cleanup = λ fn ctx d. (record { effects = []; outcome = returned none }, d);
    };
    drain = drain_desk;
    close = close_desk;
  }

  abbrev pub S : Type 0
  S = Shared D

  abbrev pub quiet : Option Err → S → Call × S
  quiet e w = (record { effects = []; outcome = returned e }, w)

  -- What `SubscribeModule` makes of a subscription. The cleanup `suc s` closes the subscription
  -- with the handle `s`.
  abbrev pub subscribed :
      (app_ctx : Option ℕ) → Value → (Option Err × ℕ) × broker.Hub → S → Call × S
  subscribed app_ctx hub ((e, s), h) w =
      let (res, effects) =
        subscribe_module hub_types hub_contract (some app_ctx) (some hub) (e, suc s) in
      (
        record { effects = effects; outcome = returned res },
        record w { rest = record (w.rest) { hub = h } },
      )

  -- The hooks of the inventory and the mailer that subscribe. The manager has injected the context.
  abbrev pub subscribe_with : ℕ → Found hub_types → S → Call × S
  subscribe_with f (missing e) w = quiet (some e) w
  subscribe_with f (impl hub) w = subscribed (some 0) hub (broker.subscribe f w.rest.hub) w

  unfoldable pub subscribe_handler : ℕ → S → Call × S
  unfolding require_hub subscribe_module
  subscribe_handler f w = subscribe_with f (require_hub hub_types hub_contract w.registry) w

  -- The mailer's BeforeDestroy hook.
  unfoldable pub tally : S → Call × S
  tally w = quiet none (record w {
    rest = record (w.rest) { tallies = w.rest.tallies ++ w.rest.sent ∷ []; sent = 0 };
  })

  -- The hook of the shop.
  abbrev pub keep_bus : Found hub_types → S → Call × S
  keep_bus (missing e) w = quiet (some e) w
  keep_bus (impl hub) w = quiet none (record w { rest = record (w.rest) { shop_bus = some hub } })

  unfoldable pub open_shop : S → Call × S
  unfolding require_hub
  open_shop w = keep_bus (require_hub hub_types hub_contract w.registry) w

  -- `must`: none is its panic.
  abbrev pub must {ℓ} : {A : Type ℓ} → Option Err × A → Option A
  must (none, a) = some a
  must (some e, a) = none

  -- `PlaceOrder`. To publish to the nil hub is a panic.
  abbrev pub publish_to : Ctx → Order → Option Value → D → Option D
  publish_to ctx o none d = none
  publish_to ctx o (some hub) d =
      let ((e, ran), h) = broker.publish ctx o d.hub in
      must (e, handle_each ran o (record d { hub = h }))

  unfoldable pub place_order : Ctx → Order → D → Option D
  unfolding handle_each
  place_order ctx o d = publish_to ctx o d.shop_bus (record d { placed = d.placed ++ o ∷ [] })

  abbrev pub or_panic : (D → Option D) → Option D → Option D
  or_panic k none = none
  or_panic k (some d) = k d

  unfoldable pub place : Ctx → Order → D → Option D
  unfolding place_order drain_desk
  place ctx o d = or_panic (λ d'. must (drain_desk ctx d')) (place_order ctx o d)
