-- ===== src/Programs/Orders/Joining.antt =====
-- adapters/hubmod/examples/orders/main.go: what the start of each module makes of that.
use appmod.Common.{
  ℕ, ◌+◌, ℕ_discrete, Bool, true, false, none, List, [], ◌∷◌, ◌≡◌, refl, sym, ap, ap₂, ◌∙◌, arith,
  subst,
}
use appmod.Base.Defs.{Base}
use appmod.Base.Environment.{Ctx}
use appmod.Base.Lifecycle.{init}
use appmod.App.{leave_module}
use appmod.Programs.Orders.{Order}
use appmod.Programs.Orders.Parts.{orders_env}
use appmod.Programs.Orders.Moves.{init-bus, init-inventory, init-mailer, init-shop}
use appmod.Programs.Orders.Standing.{
  Outside, program, OrdersWorld, hub_of, Joined, Standing, starts_module,
}

module _ (out : Outside) where
  open out use {broker, sight, documented, ctx_err, open_ended}

  -- The bus comes up.
  pub bus_up :
      (ctx : Ctx) (i m s : Bool) (ordered : List Order) (w : OrdersWorld out)
      → Standing out false i m s ordered w
      → let r = starts_module out 0 ctx w in (r.0 ≡ none) × Standing out true i m s ordered r.1
  unfolding ℕ_discrete
  bus_up ctx i m s ordered w v =
      let (c, b) = v.bus_base in
      subst
        (λ q.
          let r = leave_module (program out) 0 w q in
          (r.0 ≡ none) × Standing out true i m s ordered r.1)
        (sym (
          ap₂
            (λ u k.
              init (orders_env broker ctx_err) ctx
                (record { world = record { registry = u; rest = w.outer.rest }; base = k }))
            v.registry b
          ∙ init-bus broker ctx_err open_ended ctx c (0 ∷ []) w.outer.rest))
        (
          refl,
          record {
            registry = refl;
            open_hub = v.open_hub;
            queue = v.queue;
            reach_inventory = v.reach_inventory;
            reach_mailer = v.reach_mailer;
            shop_bus = v.shop_bus;
            reserved = v.reserved;
            mailed = v.mailed;
            placed = v.placed;
            tally = v.tally;
            bus_base = (c, refl);
            inventory_base = v.inventory_base;
            mailer_base = v.mailer_base;
            shop_base = v.shop_base;
          },
        )

  -- A subscription that was open before another one was made.
  other_subscription :
      (f g h : ℕ) (b : Bool) (k : Base) (hub : broker.Hub)
      → sight.closed hub ≡ false
      → Joined out f h b k hub
      → Joined out f h b k (broker.subscribe g hub).1
  other_subscription f g h false k hub o j = j
  other_subscription f g h true k hub o (c, s, e, q) =
      let (z, cl, qu, fresh, new, own, re) = documented.subscribes g hub o in
      (c, s, e, own s (λ p. cc (q, fresh, ap (λ t. sight.owner t hub) p)) ∙ q)

  pub inventory_up :
      (ctx : Ctx) (m s : Bool) (ordered : List Order) (w : OrdersWorld out)
      → Standing out true false m s ordered w
      → let r = starts_module out 1 ctx w in (r.0 ≡ none) × Standing out true true m s ordered r.1
  unfolding ℕ_discrete
  inventory_up ctx m s ordered w v =
      let (c, st, b, idle) = v.inventory_base in
      let (z, open_hub, queue, fresh, new, own, reach) =
        documented.subscribes 0 (hub_of out w) v.open_hub in
      subst
        (λ q.
          let r = leave_module (program out) 1 w q in
          (r.0 ≡ none) × Standing out true true m s ordered r.1)
        (sym (
          ap₂
            (λ u k.
              init (orders_env broker ctx_err) ctx
                (record { world = record { registry = u; rest = w.outer.rest }; base = k }))
            v.registry b
          ∙ init-inventory broker ctx_err open_ended ctx c st w.outer.rest idle z))
        (
          refl,
          record {
            registry = refl;
            open_hub = open_hub;
            queue = queue ∙ v.queue;
            reach_inventory = reach 0 ∙ ap (λ n. n + 1) v.reach_inventory;
            reach_mailer = omega (arith, reach 1, v.reach_mailer);
            shop_bus = v.shop_bus;
            reserved = v.reserved;
            mailed = v.mailed;
            placed = v.placed;
            tally = v.tally;
            bus_base = v.bus_base;
            inventory_base = (c, _, refl, new);
            mailer_base =
                other_subscription 1 0 2 m (w.base 2) (hub_of out w) v.open_hub v.mailer_base;
            shop_base = v.shop_base;
          },
        )

  pub mailer_up :
      (ctx : Ctx) (i s : Bool) (ordered : List Order) (w : OrdersWorld out)
      → Standing out true i false s ordered w
      → let r = starts_module out 2 ctx w in (r.0 ≡ none) × Standing out true i true s ordered r.1
  unfolding ℕ_discrete
  mailer_up ctx i s ordered w v =
      let (c, st, b, idle) = v.mailer_base in
      let (z, open_hub, queue, fresh, new, own, reach) =
        documented.subscribes 1 (hub_of out w) v.open_hub in
      subst
        (λ q.
          let r = leave_module (program out) 2 w q in
          (r.0 ≡ none) × Standing out true i true s ordered r.1)
        (sym (
          ap₂
            (λ u k.
              init (orders_env broker ctx_err) ctx
                (record { world = record { registry = u; rest = w.outer.rest }; base = k }))
            v.registry b
          ∙ init-mailer broker ctx_err open_ended ctx c st w.outer.rest idle z))
        (
          refl,
          record {
            registry = refl;
            open_hub = open_hub;
            queue = queue ∙ v.queue;
            reach_inventory = omega (arith, reach 0, v.reach_inventory);
            reach_mailer = reach 1 ∙ ap (λ n. n + 1) v.reach_mailer;
            shop_bus = v.shop_bus;
            reserved = v.reserved;
            mailed = v.mailed;
            placed = v.placed;
            tally = v.tally;
            bus_base = v.bus_base;
            inventory_base =
                other_subscription 0 1 1 i (w.base 1) (hub_of out w) v.open_hub v.inventory_base;
            mailer_base = (c, _, refl, new);
            shop_base = v.shop_base;
          },
        )

  pub shop_up :
      (ctx : Ctx) (i m : Bool) (ordered : List Order) (w : OrdersWorld out)
      → Standing out true i m false ordered w
      → let r = starts_module out 3 ctx w in (r.0 ≡ none) × Standing out true i m true ordered r.1
  unfolding ℕ_discrete
  shop_up ctx i m ordered w v =
      let (c, b) = v.shop_base in
      subst
        (λ q.
          let r = leave_module (program out) 3 w q in
          (r.0 ≡ none) × Standing out true i m true ordered r.1)
        (sym (
          ap₂
            (λ u k.
              init (orders_env broker ctx_err) ctx
                (record { world = record { registry = u; rest = w.outer.rest }; base = k }))
            v.registry b
          ∙ init-shop broker ctx_err open_ended ctx c w.outer.rest))
        (
          refl,
          record {
            registry = refl;
            open_hub = v.open_hub;
            queue = v.queue;
            reach_inventory = v.reach_inventory;
            reach_mailer = v.reach_mailer;
            shop_bus = λ e. refl;
            reserved = v.reserved;
            mailed = v.mailed;
            placed = v.placed;
            tally = v.tally;
            bus_base = v.bus_base;
            inventory_base = v.inventory_base;
            mailer_base = v.mailer_base;
            shop_base = (c, refl);
          },
        )
