-- ===== src/Programs/Orders/Stopping.antt =====
-- adapters/hubmod/examples/orders/main.go: the modules go down, in whatever order the scheduler takes
-- each layer.
use appmod.Common.{
  ℕ, suc, ◌+◌, ℕ_discrete, Bool, true, false, Option, none, List, [], ◌∷◌, length, ◌≡◌, refl, sym,
  ap, ap₂, ◌∙◌, arith, subst,
}
use appmod.Base.Defs.{Base, running, destroyed}
use appmod.Base.Environment.{Ctx}
use appmod.Base.Lifecycle.{destroy}
use appmod.App.{base_modules, leave_module}
use appmod.Programs.Orders.{Order}
use appmod.Programs.Orders.Parts.{orders_env}
use appmod.Programs.Orders.Moves.{
  part, published, destroy-bus, destroy-inventory, destroy-mailer, destroy-shop,
}
use appmod.Programs.Orders.Standing.{Outside, program, OrdersWorld, hub_of, total, total-append}

-- A module that is up, with its cleanups, or was stopped.
abbrev pub Left : ℕ → (List ℕ → Type 0) → Bool → Base → Type 0
Left h P true k = (c : Option ℕ) × (l : List ℕ) × (k ≡ part h c l running) × P l
Left h P false k = k.state ≡ destroyed

-- The one subscription of a subscriber.
abbrev pub HasOne : List ℕ → Type 0
HasOne l = (s : ℕ) × (l ≡ suc s ∷ [])

module _ (out : Outside) (ordered : List Order) where
  open out use {broker, sight, documented, ctx_err, open_ended}

  -- The program while it is stopped, with some of the modules still up.
  pub record Leaving (bus inventory mailer shop : Bool) (w : OrdersWorld out) : Type 0 where
    pub registry : w.outer.registry ≡ published bus
    pub queue : sight.queue (hub_of out w) ≡ []
    pub reserved : w.outer.rest.reserved ≡ ordered
    pub mailed : w.outer.rest.mailed ≡ ordered
    pub placed : w.outer.rest.placed ≡ ordered
    pub tally : total w.outer.rest.tallies + w.outer.rest.sent ≡ length ordered
    pub told : mailer ≡ false → w.outer.rest.sent ≡ 0
    pub bus_base : Left 0 (λ l. l ≡ 0 ∷ []) bus (w.base 0)
    pub inventory_base : Left 1 HasOne inventory (w.base 1)
    pub mailer_base : Left 2 HasOne mailer (w.base 2)
    pub shop_base : Left 3 (λ l. l ≡ []) shop (w.base 3)

  abbrev Fell : ℕ → Ctx → OrdersWorld out → (OrdersWorld out → Type 0) → Type 0
  Fell h ctx w P =
      let r = (base_modules (program out)).destroy_module h ctx w in (r.0 ≡ none) × P r.1

  pub bus_down :
      (ctx : Ctx) (i m s : Bool) (w : OrdersWorld out)
      → Leaving true i m s w
      → Fell 0 ctx w (Leaving false i m s)
  unfolding ℕ_discrete
  bus_down ctx i m s w v =
      let (c, l, b, q) = v.bus_base in
      let (e, ran, empty, kept) = documented.drains ctx (hub_of out w) in
      let (e', empty') = documented.closes ctx (broker.drain ctx (hub_of out w)).1 empty in
      subst
        (λ q. let r = leave_module (program out) 0 w q in (r.0 ≡ none) × Leaving false i m s r.1)
        (sym (
          ap₂
            (λ u k.
              destroy (orders_env broker ctx_err) ctx
                (record { world = record { registry = u; rest = w.outer.rest }; base = k }))
            v.registry (b ∙ ap (λ n. part 0 c n running) q)
          ∙ destroy-bus broker ctx_err open_ended ctx c true w.outer.rest
              (λ j. (e j, (ran ∙ v.queue) j)) e'))
        (
          refl,
          record {
            registry = refl;
            queue = empty';
            reserved = v.reserved;
            mailed = v.mailed;
            placed = v.placed;
            tally = v.tally;
            told = v.told;
            bus_base = refl;
            inventory_base = v.inventory_base;
            mailer_base = v.mailer_base;
            shop_base = v.shop_base;
          },
        )

  pub inventory_down :
      (ctx : Ctx) (b m s : Bool) (w : OrdersWorld out)
      → Leaving b true m s w
      → Fell 1 ctx w (Leaving b false m s)
  unfolding ℕ_discrete
  inventory_down ctx b m s w v =
      let (c, l, e, (h, q)) = v.inventory_base in
      subst
        (λ q. let r = leave_module (program out) 1 w q in (r.0 ≡ none) × Leaving b false m s r.1)
        (sym (
          ap (λ k. destroy (orders_env broker ctx_err) ctx (record { world = w.outer; base = k }))
            (e ∙ ap (λ n. part 1 c n running) q)
          ∙ destroy-inventory broker ctx_err open_ended ctx c h w.outer.registry w.outer.rest))
        (
          refl,
          record {
            registry = v.registry;
            queue = documented.no_new_events h (hub_of out w) v.queue;
            reserved = v.reserved;
            mailed = v.mailed;
            placed = v.placed;
            tally = v.tally;
            told = v.told;
            bus_base = v.bus_base;
            inventory_base = refl;
            mailer_base = v.mailer_base;
            shop_base = v.shop_base;
          },
        )

  pub mailer_down :
      (ctx : Ctx) (b i s : Bool) (w : OrdersWorld out)
      → Leaving b i true s w
      → Fell 2 ctx w (Leaving b i false s)
  unfolding ℕ_discrete
  mailer_down ctx b i s w v =
      let (c, l, e, (h, q)) = v.mailer_base in
      subst
        (λ q. let r = leave_module (program out) 2 w q in (r.0 ≡ none) × Leaving b i false s r.1)
        (sym (
          ap (λ k. destroy (orders_env broker ctx_err) ctx (record { world = w.outer; base = k }))
            (e ∙ ap (λ n. part 2 c n running) q)
          ∙ destroy-mailer broker ctx_err open_ended ctx c h w.outer.registry w.outer.rest))
        (
          refl,
          record {
            registry = v.registry;
            queue = documented.no_new_events h (hub_of out w) v.queue;
            reserved = v.reserved;
            mailed = v.mailed;
            placed = v.placed;
            tally = omega (arith, v.tally, total-append w.outer.rest.tallies w.outer.rest.sent);
            told = λ e. refl;
            bus_base = v.bus_base;
            inventory_base = v.inventory_base;
            mailer_base = refl;
            shop_base = v.shop_base;
          },
        )

  pub shop_down :
      (ctx : Ctx) (b i m : Bool) (w : OrdersWorld out)
      → Leaving b i m true w
      → Fell 3 ctx w (Leaving b i m false)
  unfolding ℕ_discrete
  shop_down ctx b i m w v =
      let (c, l, e, q) = v.shop_base in
      subst
        (λ q. let r = leave_module (program out) 3 w q in (r.0 ≡ none) × Leaving b i m false r.1)
        (sym (
          ap (λ k. destroy (orders_env broker ctx_err) ctx (record { world = w.outer; base = k }))
            (e ∙ ap (λ n. part 3 c n running) q)
          ∙ destroy-shop broker ctx_err open_ended ctx c w.outer.registry w.outer.rest))
        (
          refl,
          record {
            registry = v.registry;
            queue = v.queue;
            reserved = v.reserved;
            mailed = v.mailed;
            placed = v.placed;
            tally = v.tally;
            told = v.told;
            bus_base = v.bus_base;
            inventory_base = v.inventory_base;
            mailer_base = v.mailer_base;
            shop_base = refl;
          },
        )
