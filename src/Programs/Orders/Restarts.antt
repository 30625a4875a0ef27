-- ===== src/Programs/Orders/Restarts.antt =====
-- adapters/hubmod/examples/orders/main.go: orders that are placed, and restarts of the mailer.
use appmod.Common.{
  ℕ, suc, ◌+◌, ℕ_discrete, Bool, true, false, Option, none, some, List, [], ◌∷◌, ◌++◌,
  length-append, ◌≡◌, refl, sym, ap, ◌∙◌, arith, subst, append_assoc, append-nil,
}
use appmod.Errors.{Err}
use appmod.Base.Defs.{Base, destroyed}
use appmod.Base.Environment.{Ctx}
use appmod.Base.Lifecycle.{destroy}
use appmod.App.{base_modules, leave_module}
use appmod.Programs.Orders.{Desk, Order, bus_value, place}
use appmod.Programs.Orders.Parts.{
  orders_env, Event, places, restarts_mailer, happens, happen, desk_placed,
}
use appmod.Programs.Orders.Documented.{times}
use appmod.Programs.Orders.Moves.{destroy-mailer}
use appmod.Programs.Orders.Standing.{
  Outside, program, OrdersWorld, hub_of, Standing, Joined, total-append,
}
use appmod.Programs.Orders.Joining.{mailer_up}

module _ (out : Outside) where
  open out use {broker, sight, documented, ctx_err, open_ended}

  abbrev pub occurs : Ctx → Event → OrdersWorld out → Option (OrdersWorld out)
  occurs = happens broker ctx_err out.end_shutdown out.arrange out.arrange-perm

  abbrev pub occur_all : Ctx → List Event → OrdersWorld out → Option (OrdersWorld out)
  occur_all = happen broker ctx_err out.end_shutdown out.arrange out.arrange-perm

  -- Closing a subscription leaves another open.
  other_left :
      (f h s : ℕ) (b : Bool) (k : Base) (hub : broker.Hub)
      → sight.closed hub ≡ false
      → sight.owner s hub ≡ some (suc f)
      → Joined out 0 h b k hub
      → Joined out 0 h b k (broker.close_subscription s hub)
  other_left f h s false k hub o q j = j
  other_left f h s true k hub o q (c, t, e, p) =
      let (cl, own, re) = documented.unsubscribes s (suc f) hub o q in
      (c, t, e, own t (λ z. cc (p, q, ap (λ u. sight.owner u hub) z)) ∙ p)

  -- The mailer goes down.
  pub mailer_down :
      (ctx : Ctx) (b i s : Bool) (ordered : List Order) (w : OrdersWorld out)
      → Standing out b i true s ordered w
      → let r = (base_modules (program out)).destroy_module 2 ctx w in
        (r.0 ≡ none) × Standing out b i false s ordered r.1
  unfolding ℕ_discrete
  mailer_down ctx b i s ordered w v =
      let (c, h, e, q) = v.mailer_base in
      let (open_hub, own, reach) = documented.unsubscribes h 1 (hub_of out w) v.open_hub q in
      subst
        (λ q.
          let r = leave_module (program out) 2 w q in
          (r.0 ≡ none) × Standing out b i false s ordered r.1)
        (sym (
          ap (λ k. destroy (orders_env broker ctx_err) ctx (record { world = w.outer; base = k })) e
          ∙ destroy-mailer broker ctx_err open_ended ctx c h w.outer.registry w.outer.rest))
        (
          refl,
          record {
            registry = v.registry;
            open_hub = open_hub;
            queue = documented.no_new_events h (hub_of out w) v.queue;
            reach_inventory = omega (arith, reach 0, v.reach_inventory);
            reach_mailer = omega (arith, reach 1, v.reach_mailer);
            shop_bus = v.shop_bus;
            reserved = v.reserved;
            mailed = v.mailed;
            placed = v.placed;
            tally = omega (arith, v.tally, total-append w.outer.rest.tallies w.outer.rest.sent);
            bus_base = v.bus_base;
            inventory_base =
                other_left 0 1 h i (w.base 1) (hub_of out w) v.open_hub q v.inventory_base;
            mailer_base = (c, destroyed, refl, tt);
            shop_base = v.shop_base;
          },
        )

  -- What an order leaves.
  abbrev ordered_at : Ctx → Order → Desk (broker.Hub) → Desk (broker.Hub)
  ordered_at ctx o d = record d {
    hub = (broker.drain ctx (broker.publish ctx o d.hub).1).1;
    sent = d.sent + 1;
    reserved = d.reserved ++ o ∷ [];
    mailed = d.mailed ++ o ∷ [];
    placed = d.placed ++ o ∷ [];
  }

  place-some :
      (ctx : Ctx) (o : Order) (d : Desk (broker.Hub))
      → d.shop_bus ≡ some bus_value
      → (broker.publish ctx o d.hub).0 ≡ (none, 0 ∷ [])
      → (broker.drain ctx (broker.publish ctx o d.hub).1).0 ≡ (none, (1, o) ∷ [])
      → place broker ctx_err ctx o d ≡ some (ordered_at ctx o d)
  unfolding place
  place-some ctx o d s p q = rw (s, p, q) refl

  pair :
      {A : Type 0} {a a' : Option Err} {b b' : A}
      → a ≡ a'
      → b ≡ b'
      → Path (Option Err × A) (a, b) (a', b')
  pair e q = λ i. (e i, q i)

  -- An order reaches the inventory and the mailer, each once.
  order_placed :
      (ctx : Ctx) (o : Order) (ordered : List Order) (w : OrdersWorld out)
      → Standing out true true true true ordered w
      → (w' : OrdersWorld out) × (occurs ctx (places o) w ≡ some w')
        × Standing out true true true true (ordered ++ o ∷ []) w'
  unfolding happens
  order_placed ctx o ordered w v =
      let d = w.outer.rest in
      let (e, ran, queue, kept) = documented.publishes ctx o d.hub v.open_hub v.queue in
      let (e', ran', empty, kept') = documented.drains ctx (broker.publish ctx o d.hub).1 in
      (
        record w { outer = record (w.outer) { rest = ordered_at ctx o d } },
        ap (desk_placed broker ctx_err out.end_shutdown out.arrange out.arrange-perm w) (
            place-some ctx o d (v.shop_bus refl)
              (pair e (ran ∙ ap (λ n. times n 0) v.reach_inventory))
              (pair e' (ran' ∙ queue ∙ ap (λ n. times n (1, o)) v.reach_mailer))),
        record {
          registry = v.registry;
          open_hub = kept'.closed ∙ kept.closed ∙ v.open_hub;
          queue = empty;
          reach_inventory = kept'.reach 0 ∙ kept.reach 0 ∙ v.reach_inventory;
          reach_mailer = kept'.reach 1 ∙ kept.reach 1 ∙ v.reach_mailer;
          shop_bus = v.shop_bus;
          reserved = ap (λ l. l ++ o ∷ []) v.reserved;
          mailed = ap (λ l. l ++ o ∷ []) v.mailed;
          placed = ap (λ l. l ++ o ∷ []) v.placed;
          tally = omega (arith, v.tally, length-append ordered (o ∷ []));
          bus_base = v.bus_base;
          inventory_base =
              let (c, s, p, q) = v.inventory_base in (c, s, p, kept'.owner s ∙ kept.owner s ∙ q);
          mailer_base =
              let (c, s, p, q) = v.mailer_base in (c, s, p, kept'.owner s ∙ kept.owner s ∙ q);
          shop_base = v.shop_base;
        },
      )

  -- The mailer is restarted, and subscribed once again.
  mailer_restarted :
      (ctx : Ctx) (ordered : List Order) (w : OrdersWorld out)
      → Standing out true true true true ordered w
      → (w' : OrdersWorld out) × (occurs ctx restarts_mailer w ≡ some w')
        × Standing out true true true true ordered w'
  unfolding happens
  mailer_restarted ctx ordered w v =
      let (e, u) = mailer_down ctx true true true ordered w v in
      let (e', u') = mailer_up out ctx true true ordered _ u in (_, rw (e, e') refl, u')

  -- The orders among some events.
  abbrev pub orders_in : List (Event) → List Order
  orders_in [] = []
  orders_in (places o ∷ es) = o ∷ orders_in es
  orders_in (restarts_mailer ∷ es) = orders_in es

  pub happen-Standing :
      (ctx : Ctx) (es : List (Event)) (ordered : List Order) (w : OrdersWorld out)
      → Standing out true true true true ordered w
      → (w' : OrdersWorld out) × (occur_all ctx es w ≡ some w')
        × Standing out true true true true (ordered ++ orders_in es) w'
  unfolding happen
  happen-Standing ctx [] ordered w v =
      (w, refl, subst (λ l. Standing out true true true true l w) (sym (append-nil ordered)) v)
  happen-Standing ctx (places o ∷ es) ordered w v =
      let (w1, e, u) = order_placed ctx o ordered w v in
      let (w2, e', u') = happen-Standing ctx es (ordered ++ o ∷ []) w1 u in
      (
        w2,
        rw e e',
        subst (λ l. Standing out true true true true l w2)
            (append_assoc ordered (o ∷ []) (orders_in es)) u',
      )
  happen-Standing ctx (restarts_mailer ∷ es) ordered w v =
      let (w1, e, u) = mailer_restarted ctx ordered w v in
      let (w2, e', u') = happen-Standing ctx es ordered w1 u in (w2, rw e e', u')
