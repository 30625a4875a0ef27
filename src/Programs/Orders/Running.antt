-- ===== src/Programs/Orders/Running.antt =====
-- adapters/hubmod/examples/orders/main.go: `main`, from the registration of the modules to `Stop`.
use appmod.Common.{
  Name, name_discrete, true, false, Option, none, some, List, [], length, ◌≡◌, refl, sym, arith,
  Occurs, subst,
}
use appmod.Base.Defs.{State, created}
use appmod.Base.Environment.{Ctx}
use appmod.Manager.Defs.{Node, Manager, find_node, keys}
use appmod.Manager.Teardown.{At, stop}
use appmod.Manager.Startup.{start}
use appmod.Manager.Stopping.{WellFormed}
use appmod.Manager.Risen.{AllRisen, start-AllRisen}
use appmod.Manager.Falling.{stop-none}
use appmod.App.{base_modules}
use appmod.Programs.Started.{is_up, is_up-dep}
use appmod.Programs.Orders.{Order}
use appmod.Programs.Orders.Parts.{
  parts, main_manager, main_run, Event, bus_name, inventory_name, mailer_name, shop_name,
}
use appmod.Programs.Orders.Graph.{
  orders_nodes, orders_layers, orders-IsMap, plan-orders, fresh_manager, main_manager-some,
  find_node-IsPart, is_bus, is_inventory, is_mailer, is_shop,
}
use appmod.Programs.Orders.Moves.{published}
use appmod.Programs.Orders.Standing.{Outside, program, OrdersWorld, Standing, total}
use appmod.Programs.Orders.Restarts.{orders_in, occur_all, happen-Standing}
use appmod.Programs.Orders.Starting.{same-Standing, orders_rise}
use appmod.Programs.Orders.Stopping.{Leaving}
use appmod.Programs.Orders.Falling.{Falling, same-Leaving, orders_fall}

module _ (out : Outside) where
  open out use {broker, sight, ctx_err}

  -- The program before it starts.
  abbrev pub at_first : OrdersWorld out
  at_first = record {
    outer = record {
      registry = published false;
      rest = record {
        hub = out.new_hub;
        sent = 0;
        shop_bus = none;
        reserved = [];
        mailed = [];
        placed = [];
        tallies = [];
      };
    };
    base = parts;
  }

  first-Standing : Standing out false false false false [] at_first
  unfolding parts
  first-Standing = record {
    registry = refl;
    open_hub = (out.new_hub-IsNew).open_hub;
    queue = (out.new_hub-IsNew).queue;
    reach_inventory = (out.new_hub-IsNew).reach 0;
    reach_mailer = (out.new_hub-IsNew).reach 1;
    shop_bus = λ e. cc;
    reserved = refl;
    mailed = refl;
    placed = refl;
    tally = refl;
    bus_base = (none, refl);
    inventory_base = (none, created, refl, tt);
    mailer_base = (none, created, refl, tt);
    shop_base = (none, refl);
  }

  -- The modules are stopped, and each of them has said what it did.
  pub record Finished (ordered : List Order) (s : At (base_modules (program out))) : Type 0 where
    pub stopped : s.manager.started ≡ []
    pub destroyed :
        (x : Name) (n : Node)
        → find_node x orders_nodes ≡ some n
        → (s.world.base n.handle).state ≡ State.destroyed
    pub registry : s.world.outer.registry ≡ published false
    pub placed : s.world.outer.rest.placed ≡ ordered
    pub reserved : s.world.outer.rest.reserved ≡ ordered
    pub mailed : s.world.outer.rest.mailed ≡ ordered
    pub tally : total s.world.outer.rest.tallies ≡ length ordered

  left-Finished :
      (ordered : List Order) (s : At (base_modules (program out)))
      → s.manager.started ≡ []
      → Leaving out ordered false false false false s.world
      → Finished ordered s
  left-Finished ordered s e v = record {
    stopped = e;
    destroyed = λ x n f. elim (find_node-IsPart x n f) [
      | is_bus p q ↦
          subst (λ (k : Node). (s.world.base k.handle).state ≡ State.destroyed) (sym q) v.bus_base
      | is_inventory p q ↦
          subst (λ (k : Node). (s.world.base k.handle).state ≡ State.destroyed) (sym q)
            v.inventory_base
      | is_mailer p q ↦
          subst (λ (k : Node). (s.world.base k.handle).state ≡ State.destroyed) (sym q)
            v.mailer_base
      | is_shop p q ↦
          subst (λ (k : Node). (s.world.base k.handle).state ≡ State.destroyed) (sym q) v.shop_base
    ];
    registry = v.registry;
    placed = v.placed;
    reserved = v.reserved;
    mailed = v.mailed;
    tally = omega (arith, v.tally, v.told refl);
  }

  -- The stop begins.
  Standing-Leaving :
      (ordered : List Order) (w w' : OrdersWorld out)
      → w' ≡ w
      → Standing out true true true true ordered w
      → Leaving out ordered true true true true w'
  Standing-Leaving ordered w w' q v =
      subst (Leaving out ordered true true true true) (sym q) (record {
        registry = v.registry;
        queue = v.queue;
        reserved = v.reserved;
        mailed = v.mailed;
        placed = v.placed;
        tally = v.tally;
        told = λ e. cc;
        bus_base = let (c, b) = v.bus_base in (c, _, b, refl);
        inventory_base = let (c, s, b, o) = v.inventory_base in (c, _, b, (s, refl));
        mailer_base = let (c, s, b, o) = v.mailer_base in (c, _, b, (s, refl));
        shop_base = let (c, b) = v.shop_base in (c, _, b, refl);
      })

  -- All the modules are up.
  risen-Standing :
      (ctx : Ctx) (s : At (base_modules (program out)))
      → AllRisen (base_modules (program out)) ctx orders_nodes (orders_rise out ctx) s
      → Standing out true true true true [] s.world
  unfolding name_discrete
  risen-Standing ctx s u =
      same-Standing out [] s.world (up bus_name (ground arith)) (up inventory_name (ground arith))
        (up mailer_name (ground arith)) (up shop_name (ground arith)) u.ready
    where
      up : (x : Name) → Occurs x (keys orders_nodes) → is_up x s.manager.started ≡ true
      up x o = is_up-dep x s.manager.started (ground (arith, u.counts x, o))

  Leaving-Falling :
      (ctx : Ctx) (ordered : List Order) (s : At (base_modules (program out))) (w : OrdersWorld out)
      → AllRisen (base_modules (program out)) ctx orders_nodes (orders_rise out ctx) s
      → Leaving out ordered true true true true w
      → Falling out ordered s.manager.started w
  unfolding name_discrete
  Leaving-Falling ctx ordered s w u v =
      same-Leaving out ordered w (sym (up bus_name (ground arith)))
        (sym (up inventory_name (ground arith))) (sym (up mailer_name (ground arith)))
        (sym (up shop_name (ground arith))) v
    where
      up : (x : Name) → Occurs x (keys orders_nodes) → is_up x s.manager.started ≡ true
      up x o = is_up-dep x s.manager.started (ground (arith, u.counts x, o))

  stopped-Finished :
      (ctx : Ctx) (ordered : List Order) (s : At (base_modules (program out))) (w : OrdersWorld out)
      → AllRisen (base_modules (program out)) ctx orders_nodes (orders_rise out ctx) s
      → Standing out true true true true ordered w
      → let r = stop (base_modules (program out)) ctx (record s { world = w }) in
        (r.0 ≡ none) × Finished ordered r.1
  stopped-Finished ctx ordered s w u v =
      let (e, z, l) =
        stop-none (base_modules (program out)) ctx orders_nodes (orders_fall out ordered ctx)
          (record s { world = w }) u.nodes well
          (Leaving-Falling ctx ordered s _ u
            (Standing-Leaving ordered w _ (λ j. record w { outer = out.ends w.outer j }) v)) in
      (e, left-Finished ordered _ z l)
    where
      well : WellFormed s.manager
      well = record {
        registered =
            λ d o. subst (λ m. Occurs d (keys m)) (sym u.nodes) (omega (arith, o, u.counts d));
        distinct = λ d. omega (arith, u.counts d, orders-IsMap d);
      }

  -- `main` of the program, and what it comes to.
  abbrev pub runs :
      Ctx → List Event → At (base_modules (program out)) → Option (At (base_modules (program out)))
  runs = main_run broker ctx_err out.end_shutdown out.arrange out.arrange-perm

  runs-some :
      (ctx : Ctx) (events : List Event) (s up s' : At (base_modules (program out)))
      (w : OrdersWorld out)
      → start (base_modules (program out)) ctx s ≡ (none, up)
      → occur_all out ctx events up.world ≡ some w
      → stop (base_modules (program out)) ctx (record up { world = w }) ≡ (none, s')
      → runs ctx events s ≡ some s'
  unfolding main_run
  runs-some ctx events s up s' w e e' e'' = rw (main_run, e, e', e'') refl

  -- If msghub does as documented, no context is ever done and `End` of go-shutdown changes nothing
  -- that the program can see, then `main` runs without a panic in every order in which the scheduler
  -- lets the goroutines of a layer finish, and whatever orders are placed and however often the
  -- mailer is restarted between its start and its stop: every order is reserved once and confirmed
  -- once, in the order in which they were placed, the tallies of the mailer add up to all of them,
  -- every module is destroyed, and the hub is taken from the registry.
  pub main-Finished :
      (ctx : Ctx) (events : List Event)
      → (m : Manager) × (main_manager ≡ some m)
        × (s : At (base_modules (program out))) × (runs ctx events
              (record { world = at_first; manager = m })
            ≡ some s)
        × Finished (orders_in out events) s
  main-Finished ctx events =
      let (e, u) =
        start-AllRisen (base_modules (program out)) ctx orders_nodes (orders_rise out ctx) first
          orders_layers refl orders-IsMap refl refl plan-orders first-Standing in
      let up = (start (base_modules (program out)) ctx first).1 in
      let (w, e', v) = happen-Standing out ctx events [] up.world (risen-Standing ctx up u) in
      let (e'', f) = stopped-Finished ctx (orders_in out events) up w u v in
      let end = (stop (base_modules (program out)) ctx (record up { world = w })).1 in
      (
        fresh_manager,
        main_manager-some,
        end,
        runs-some ctx events first up end w (λ i. (e i, up)) e' (λ i. (e'' i, end)),
        f,
      )
    where
      first : At (base_modules (program out))
      first = record { world = at_first; manager = fresh_manager }
