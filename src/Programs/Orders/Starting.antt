-- ===== src/Programs/Orders/Starting.antt =====
-- adapters/hubmod/examples/orders/main.go: the modules come up, in whatever order the scheduler takes
-- each layer.
use appmod.Common.{
  ℕ, ℕ_discrete, Name, name_discrete, Bool, true, false, Option, none, some, List, [], ◌∷◌, ◌++◌,
  count, ◌≡◌, refl, sym, ap, ◌∙◌, arith, Occurs, subst,
}
use appmod.Base.Defs.{Base, set_app_context}
use appmod.Base.Environment.{Ctx, given, detached}
use appmod.Manager.Defs.{Node, find_node}
use appmod.Manager.Modules.{context_err}
use appmod.Manager.Rising.{Rises}
use appmod.App.{base_modules, put_base}
use appmod.App.Running.{put-same, put-other}
use appmod.Programs.Started.{is_up, is_up-same, is_up-dep, is_up_self, is_up-apart}
use appmod.Programs.Orders.{Order}
use appmod.Programs.Orders.Parts.{bus_name, inventory_name, mailer_name, shop_name}
use appmod.Programs.Orders.Graph.{
  orders_nodes, find_node-IsPart, is_bus, is_inventory, is_mailer, is_shop,
}
use appmod.Programs.Orders.Moves.{part}
use appmod.Programs.Orders.Standing.{
  begun, Outside, program, OrdersWorld, Standing, Joined, starts_module,
}
use appmod.Programs.Orders.Joining.{bus_up, inventory_up, mailer_up, shop_up}

module _ (out : Outside) where
  abbrev pub Rising : List Name → OrdersWorld out → Type 0
  Rising started w =
      Standing out (is_up bus_name started) (is_up inventory_name started)
        (is_up mailer_name started) (is_up shop_name started) [] w

  pub same-Standing :
      {b i m s b' i' m' s' : Bool} (l : List Order) (w : OrdersWorld out)
      → b ≡ b'
      → i ≡ i'
      → m ≡ m'
      → s ≡ s'
      → Standing out b i m s l w
      → Standing out b' i' m' s' l w
  same-Standing l w p q r s v =
      subst (λ (k : Bool × Bool × Bool × Bool). Standing out k.0 k.1 k.2 k.3 l w)
        (λ j. (p j, q j, r j, s j)) v

  abbrev Came : Ctx → List Name → OrdersWorld out → Name → ℕ → Type 0
  Came ctx started w x h =
      let r = starts_module out h ctx w in (r.0 ≡ none) × Rising (started ++ x ∷ []) r.1

  bus-Came :
      (ctx : Ctx) (started : List Name) (w : OrdersWorld out)
      → Rising started w
      → count bus_name started ≡ 0
      → Came ctx started w bus_name 0
  unfolding name_discrete
  bus-Came ctx started w v z =
      let up = is_up-apart bus_name in
      let (e, u) =
        bus_up out ctx _ _ _ [] w
          (same-Standing [] w (is_up-same bus_name started z) refl refl refl v) in
      (
        e,
        same-Standing [] _ (sym (is_up_self bus_name started))
            (sym (up inventory_name started refl)) (sym (up mailer_name started refl))
            (sym (up shop_name started refl)) u,
      )

  inventory-Came :
      (ctx : Ctx) (started : List Name) (w : OrdersWorld out)
      → Rising started w
      → count inventory_name started ≡ 0
      → Occurs bus_name started
      → Came ctx started w inventory_name 1
  unfolding name_discrete
  inventory-Came ctx started w v z o =
      let up = is_up-apart inventory_name in
      let bus = is_up-dep bus_name started o in
      let (e, u) =
        inventory_up out ctx _ _ [] w
          (same-Standing [] w bus (is_up-same inventory_name started z) refl refl v) in
      (
        e,
        same-Standing [] _ (sym (up bus_name started refl ∙ bus))
            (sym (is_up_self inventory_name started)) (sym (up mailer_name started refl))
            (sym (up shop_name started refl)) u,
      )

  mailer-Came :
      (ctx : Ctx) (started : List Name) (w : OrdersWorld out)
      → Rising started w
      → count mailer_name started ≡ 0
      → Occurs bus_name started
      → Came ctx started w mailer_name 2
  unfolding name_discrete
  mailer-Came ctx started w v z o =
      let up = is_up-apart mailer_name in
      let bus = is_up-dep bus_name started o in
      let (e, u) =
        mailer_up out ctx _ _ [] w
          (same-Standing [] w bus refl (is_up-same mailer_name started z) refl v) in
      (
        e,
        same-Standing [] _ (sym (up bus_name started refl ∙ bus))
            (sym (up inventory_name started refl)) (sym (is_up_self mailer_name started))
            (sym (up shop_name started refl)) u,
      )

  shop-Came :
      (ctx : Ctx) (started : List Name) (w : OrdersWorld out)
      → Rising started w
      → count shop_name started ≡ 0
      → Occurs bus_name started
      → Came ctx started w shop_name 3
  unfolding name_discrete
  shop-Came ctx started w v z o =
      let up = is_up-apart shop_name in
      let bus = is_up-dep bus_name started o in
      let (e, u) =
        shop_up out ctx _ _ [] w
          (same-Standing [] w bus refl refl (is_up-same shop_name started z) v) in
      (
        e,
        same-Standing [] _ (sym (up bus_name started refl ∙ bus))
            (sym (up inventory_name started refl)) (sym (up mailer_name started refl))
            (sym (is_up_self shop_name started)) u,
      )

  -- A module that is not started, and whose dependencies are, comes up.
  pub comes_up :
      (ctx : Ctx) (started : List Name) (w : OrdersWorld out) (x : Name) (n : Node)
      → Rising started w
      → find_node x orders_nodes ≡ some n
      → count x started ≡ 0
      → ((d : Name) → Occurs d n.deps → Occurs d started)
      → Came ctx started w x n.handle
  comes_up ctx started w x n v f z d = elim (find_node-IsPart x n f) [
    | is_bus e q ↦ at e q (bus-Came ctx started w v (fresh e))
    | is_inventory e q ↦
        at e q (inventory-Came ctx started w v (fresh e) (dep q bus_name (ground arith)))
    | is_mailer e q ↦ at e q (mailer-Came ctx started w v (fresh e) (dep q bus_name (ground arith)))
    | is_shop e q ↦ at e q (shop-Came ctx started w v (fresh e) (dep q bus_name (ground arith)))
  ]
    where
      fresh : {y : Name} → x ≡ y → count y started ≡ 0
      fresh e = ap (λ k. count k started) (sym e) ∙ z

      dep : {m : Node} → n ≡ m → (y : Name) → Occurs y m.deps → Occurs y started
      dep q y o = d y (subst (λ (k : Node). Occurs y k.deps) (sym q) o)

      at :
          {y : Name} {m : Node}
          → x ≡ y
          → n ≡ m
          → Came ctx started w y m.handle
          → Came ctx started w x n.handle
      at e q h =
          subst (λ (k : Name × Node). Came ctx started w k.0 (k.1).handle) (sym (λ i. (e i, q i))) h

  -- The context is injected into any module.
  given_base :
      (P : Base → Type 0)
      → ((k : Base) → P k → P (set_app_context (some 0) k))
      → (h i : ℕ) (w : OrdersWorld out) → P (w.base i)
      → P (put_base (program out) h (set_app_context (some 0) (w.base h)) w.base i)
  given_base P f h i w p = elim (ℕ_discrete i h) [
    | no e ↦ subst P (sym (put-other (program out) h i _ w.base e)) p
    | yes e ↦
        subst P
          (sym (
            ap (put_base (program out) h _ w.base) e
            ∙ put-same (program out) h _ w.base
            ∙ ap (λ j. set_app_context (some 0) (w.base j)) (sym e)))
          (f (w.base i) p)
  ]

  given-Joined :
      (f h : ℕ) (b : Bool) (hub : (out.broker).Hub) (k : Base)
      → Joined out f h b k hub
      → Joined out f h b (set_app_context (some 0) k) hub
  unfolding set_app_context
  given-Joined f h true hub k (c, s, e, q) = (some 0, s, ap (set_app_context (some 0)) e, q)
  given-Joined f h false hub k (c, s, e, q) = (some 0, s, ap (set_app_context (some 0)) e, q)

  pub given_context :
      (started : List Name) (w : OrdersWorld out) (h : ℕ)
      → Rising started w
      → Rising started ((base_modules (program out)).inject h w)
  unfolding set_app_context
  given_context started w h v = record {
    registry = v.registry;
    open_hub = v.open_hub;
    queue = v.queue;
    reach_inventory = v.reach_inventory;
    reach_mailer = v.reach_mailer;
    shop_bus = v.shop_bus;
    reserved = v.reserved;
    mailed = v.mailed;
    placed = v.placed;
    tally = v.tally;
    bus_base =
        given_base (λ k. (c : Option ℕ) × (k ≡ part 0 c (0 ∷ []) (begun (is_up bus_name started))))
          (λ k p. (some 0, ap (set_app_context (some 0)) p.1)) h 0 w v.bus_base;
    inventory_base =
        given_base (λ k. Joined out 0 1 (is_up inventory_name started) k w.outer.rest.hub)
          (given-Joined 0 1 _ _) h 1 w v.inventory_base;
    mailer_base =
        given_base (λ k. Joined out 1 2 (is_up mailer_name started) k w.outer.rest.hub)
          (given-Joined 1 2 _ _) h 2 w v.mailer_base;
    shop_base =
        given_base (λ k. (c : Option ℕ) × (k ≡ part 3 c [] (begun (is_up shop_name started))))
          (λ k p. (some 0, ap (set_app_context (some 0)) p.1)) h 3 w v.shop_base;
  }

  pub context-none :
      (ctx : Ctx) (w : OrdersWorld out) → context_err (base_modules (program out)) ctx w ≡ none
  context-none (given c) w = out.open_ended c w.outer.rest
  context-none (detached c) w = refl

  abbrev pub orders_rise : (ctx : Ctx) → Rises (base_modules (program out)) ctx orders_nodes
  orders_rise ctx = record {
    R = Rising;
    open_ended = context-none ctx;
    comes_up = comes_up ctx;
    injected = given_context;
  }
