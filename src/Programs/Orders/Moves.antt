-- ===== src/Programs/Orders/Moves.antt =====
-- adapters/hubmod/examples/orders/main.go: what `Init` and `Destroy` of each module do.
use appmod.Common.{
  ℕ, suc, ℕ_discrete, Bool, true, false, Option, none, some, List, [], ◌∷◌, ◌++◌, ◌≡◌, refl,
  if◌then◌else◌,
}
use appmod.Errors.{Err}
use appmod.Base.Defs.{Base, State, created, initializing, running, destroying, destroyed, failed}
use appmod.Base.Environment.{Ctx, given, detached, apply_all}
use appmod.Base.Lifecycle.{Run, init, destroy}
use appmod.Registry.{Registry}
use appmod.Hub.{Shared}
use appmod.Programs.Orders.{Broker, Desk, bus_value, hub_contract, drain_desk, close_desk}
use appmod.Programs.Orders.Parts.{parts, call_hook, call_cleanup, orders_env}

-- The module with this pointer, with the context that was injected and with these cleanups.
abbrev pub part : ℕ → Option ℕ → List ℕ → State → Base
part h app_ctx cleanups s = record (parts h) { app_ctx = app_ctx; cleanups = cleanups; state = s }

abbrev pub published : Bool → Option Registry
published b = some (record { services = if b then (hub_contract, bus_value) ∷ [] else [] })

-- The states in which a module of the program is not up.
abbrev pub IsIdle : State → Type 0
IsIdle created = Unit
IsIdle destroyed = Unit
IsIdle _ = ⊥

unfoldable pub computed : Unit {0}
unfolding init destroy parts call_hook call_cleanup apply_all ℕ_discrete drain_desk close_desk
computed = tt

module _ (broker : Broker) (ctx_err : ℕ → Desk (broker.Hub) → Option Err)
    (open_ended : (c : ℕ) (d : Desk (broker.Hub)) → ctx_err c d ≡ none) where
  abbrev pub Hub : Type 0
  Hub = broker.Hub

  abbrev pub among :
      Option Registry → Desk Hub → ℕ → Option ℕ → List ℕ → State → Run (Shared (Desk Hub))
  among r d h c cleanups s = record {
    world = record { registry = r; rest = d };
    base = part h c cleanups s;
  }

  pub init-bus :
      (ctx : Ctx) (c : Option ℕ) (cleanups : List ℕ) (d : Desk Hub)
      → init (orders_env broker ctx_err) ctx (among (published false) d 0 c cleanups created)
        ≡ (none, among (published true) d 0 c cleanups running)
  unfolding computed
  init-bus (given n) c cleanups d = rw (open_ended n) refl
  init-bus (detached n) c cleanups d = refl

  -- A module that subscribes in its hook, from the first start or from another.
  pub init-inventory :
      (ctx : Ctx) (c : Option ℕ) (s : State) (d : Desk Hub)
      → IsIdle s
      → let r = broker.subscribe 0 d.hub in
        r.0.0 ≡ none
        → init (orders_env broker ctx_err) ctx (among (published true) d 1 c [] s)
          ≡ (none, among (published true) (record d { hub = r.1 }) 1 c (suc (r.0.1) ∷ []) running)
  unfolding computed
  init-inventory (given n) c created d i e = rw (open_ended n, e) refl
  init-inventory (given n) c destroyed d i e = rw (open_ended n, e) refl
  init-inventory (detached n) c created d i e = rw e refl
  init-inventory (detached n) c destroyed d i e = rw e refl
  init-inventory ctx c initializing d i e = absurd i
  init-inventory ctx c running d i e = absurd i
  init-inventory ctx c destroying d i e = absurd i
  init-inventory ctx c failed d i e = absurd i

  pub init-mailer :
      (ctx : Ctx) (c : Option ℕ) (s : State) (d : Desk Hub)
      → IsIdle s
      → let r = broker.subscribe 1 d.hub in
        r.0.0 ≡ none
        → init (orders_env broker ctx_err) ctx (among (published true) d 2 c [] s)
          ≡ (none, among (published true) (record d { hub = r.1 }) 2 c (suc (r.0.1) ∷ []) running)
  unfolding computed
  init-mailer (given n) c created d i e = rw (open_ended n, e) refl
  init-mailer (given n) c destroyed d i e = rw (open_ended n, e) refl
  init-mailer (detached n) c created d i e = rw e refl
  init-mailer (detached n) c destroyed d i e = rw e refl
  init-mailer ctx c initializing d i e = absurd i
  init-mailer ctx c running d i e = absurd i
  init-mailer ctx c destroying d i e = absurd i
  init-mailer ctx c failed d i e = absurd i

  pub init-shop :
      (ctx : Ctx) (c : Option ℕ) (d : Desk Hub)
      → init (orders_env broker ctx_err) ctx (among (published true) d 3 c [] created)
        ≡ (none, among (published true) (record d { shop_bus = some bus_value }) 3 c [] running)
  unfolding computed
  init-shop (given n) c d = rw (open_ended n) refl
  init-shop (detached n) c d = refl

  -- What the teardown of the bus leaves of the desk, with nothing in the queues.
  abbrev pub hub_shut : Ctx → Desk Hub → Desk Hub
  hub_shut ctx d = record d { hub = (broker.close ctx (broker.drain ctx d.hub).1).1 }

  pub destroy-bus :
      (ctx : Ctx) (c : Option ℕ) (b : Bool) (d : Desk Hub)
      → (broker.drain ctx d.hub).0 ≡ (none, [])
      → (broker.close ctx (broker.drain ctx d.hub).1).0 ≡ none
      → destroy (orders_env broker ctx_err) ctx (among (published b) d 0 c (0 ∷ []) running)
        ≡ (none, among (published false) (hub_shut ctx d) 0 c [] destroyed)
  unfolding computed
  destroy-bus (given n) c true d e f = rw (open_ended n, e, f) refl
  destroy-bus (given n) c false d e f = rw (open_ended n, e, f) refl
  destroy-bus (detached n) c true d e f = rw (e, f) refl
  destroy-bus (detached n) c false d e f = rw (e, f) refl

  pub destroy-inventory :
      (ctx : Ctx) (c : Option ℕ) (s : ℕ) (r : Option Registry) (d : Desk Hub)
      → destroy (orders_env broker ctx_err) ctx (among r d 1 c (suc s ∷ []) running)
        ≡ (none, among r (record d { hub = broker.close_subscription s d.hub }) 1 c [] destroyed)
  unfolding computed
  destroy-inventory ctx c s r d = refl

  pub destroy-mailer :
      (ctx : Ctx) (c : Option ℕ) (s : ℕ) (r : Option Registry) (d : Desk Hub)
      → destroy (orders_env broker ctx_err) ctx (among r d 2 c (suc s ∷ []) running) ≡ (
        none,
        among r
            (record d {
              hub = broker.close_subscription s d.hub;
              tallies = d.tallies ++ d.sent ∷ [];
              sent = 0;
            })
            2
            c
            []
            destroyed,
      )
  unfolding computed
  destroy-mailer (given n) c s r d = rw (open_ended n) refl
  destroy-mailer (detached n) c s r d = refl

  pub destroy-shop :
      (ctx : Ctx) (c : Option ℕ) (r : Option Registry) (d : Desk Hub)
      → destroy (orders_env broker ctx_err) ctx (among r d 3 c [] running)
        ≡ (none, among r d 3 c [] destroyed)
  unfolding computed
  destroy-shop ctx c r d = refl
