-- ===== src/Programs/Orders/Standing.antt =====
-- adapters/hubmod/examples/orders/main.go: what holds while the hub is open, whichever modules are up.
use appmod.Common.{
  ℕ, suc, ◌+◌, Name, Bool, true, false, Option, none, some, List, [], ◌∷◌, ◌++◌, length, ◌≡◌, arith,
  Perm,
}
use appmod.Errors.{Err}
use appmod.Base.Defs.{Base, State, created, running}
use appmod.Base.Environment.{Ctx}
use appmod.App.{Rest, World, base_modules}
use appmod.Programs.Orders.{Broker, Desk, Order, bus_value}
use appmod.Programs.Orders.Parts.{W, orders}
use appmod.Programs.Orders.Documented.{Sight, IsDocumented, IsNew, bit}
use appmod.Programs.Orders.Moves.{part, published, IsIdle}

abbrev pub total : List ℕ → ℕ
total [] = 0
total (n ∷ ns) = n + total ns

pub total-append : (ns : List ℕ) (n : ℕ) → total (ns ++ n ∷ []) ≡ total ns + n
total-append [] n = omega arith
total-append (m ∷ ns) n = omega (arith, total-append ns n)

-- A bus module or a shop, before and after its start.
abbrev pub begun : Bool → State
begun true = running
begun false = created

-- Everything that the program meets outside.
pub record Outside : Type 1 where
  pub broker : Broker
  pub sight : Sight broker
  pub documented : IsDocumented broker sight
  pub new_hub : broker.Hub
  pub new_hub-IsNew : IsNew broker sight new_hub
  pub ctx_err : ℕ → Desk (broker.Hub) → Option Err
  pub open_ended : (c : ℕ) (d : Desk (broker.Hub)) → ctx_err c d ≡ none
  pub end_shutdown : W broker ctx_err → W broker ctx_err
  pub ends : (w : W broker ctx_err) → end_shutdown w ≡ w
  pub arrange : W broker ctx_err → List Name → List Name
  pub arrange-perm : (w : W broker ctx_err) (names : List Name) → Perm (arrange w names) names

module _ (out : Outside) where
  open out use {broker, sight, documented, ctx_err, open_ended}

  abbrev pub program : Rest
  program = orders broker ctx_err out.end_shutdown out.arrange out.arrange-perm

  abbrev pub OrdersWorld : Type 0
  OrdersWorld = World program

  abbrev pub hub_of : OrdersWorld → broker.Hub
  hub_of w = w.outer.rest.hub

  -- The subscriber `h` with the handler `f`: up with a subscription of its own, or not.
  abbrev pub Joined : (f h : ℕ) → Bool → Base → broker.Hub → Type 0
  Joined f h true b hub =
      (c : Option ℕ) × (s : ℕ) × (b ≡ part h c (suc s ∷ []) running) × (sight.owner s hub ≡ some f)
  Joined f h false b hub = (c : Option ℕ) × (s : State) × (b ≡ part h c [] s) × IsIdle s

  -- The modules that are up, and what was ordered.
  pub record Standing (bus inventory mailer shop : Bool) (ordered : List Order) (w : OrdersWorld)
      : Type 0 where
    pub registry : w.outer.registry ≡ published bus
    pub open_hub : sight.closed (hub_of w) ≡ false
    pub queue : sight.queue (hub_of w) ≡ []
    pub reach_inventory : sight.reach 0 (hub_of w) ≡ bit inventory
    pub reach_mailer : sight.reach 1 (hub_of w) ≡ bit mailer
    pub shop_bus : shop ≡ true → w.outer.rest.shop_bus ≡ some bus_value
    pub reserved : w.outer.rest.reserved ≡ ordered
    pub mailed : w.outer.rest.mailed ≡ ordered
    pub placed : w.outer.rest.placed ≡ ordered
    pub tally : total w.outer.rest.tallies + w.outer.rest.sent ≡ length ordered
    pub bus_base : (c : Option ℕ) × (w.base 0 ≡ part 0 c (0 ∷ []) (begun bus))
    pub inventory_base : Joined 0 1 inventory (w.base 1) (hub_of w)
    pub mailer_base : Joined 1 2 mailer (w.base 2) (hub_of w)
    pub shop_base : (c : Option ℕ) × (w.base 3 ≡ part 3 c [] (begun shop))

  abbrev pub starts_module : ℕ → Ctx → OrdersWorld → Option Err × OrdersWorld
  starts_module h ctx w = (base_modules program).init_module h ctx w
