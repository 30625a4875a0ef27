-- ===== src/Programs/Orders/Falling.antt =====
-- adapters/hubmod/examples/orders/main.go: `Stop` by the names that are still started.
use appmod.Common.{ℕ, Name, name_discrete, Bool, none, some, List, ◌≡◌, refl, sym, Occurs, subst}
use appmod.Base.Environment.{Ctx}
use appmod.Manager.Defs.{Node, find_node}
use appmod.Manager.Teardown.{without}
use appmod.Manager.Falling.{Falls}
use appmod.App.{base_modules}
use appmod.Programs.Started.{is_up, is_up-dep, is_up-gone, is_up-stays}
use appmod.Programs.Orders.{Order}
use appmod.Programs.Orders.Parts.{bus_name, inventory_name, mailer_name, shop_name}
use appmod.Programs.Orders.Graph.{
  orders_nodes, find_node-IsPart, is_bus, is_inventory, is_mailer, is_shop,
}
use appmod.Programs.Orders.Standing.{Outside, program, OrdersWorld}
use appmod.Programs.Orders.Starting.{context-none}
use appmod.Programs.Orders.Stopping.{Leaving, bus_down, inventory_down, mailer_down, shop_down}

module _ (out : Outside) (ordered : List Order) where
  abbrev pub Falling : List Name → OrdersWorld out → Type 0
  Falling started w =
      Leaving out ordered (is_up bus_name started) (is_up inventory_name started)
        (is_up mailer_name started) (is_up shop_name started) w

  pub same-Leaving :
      {b i m s b' i' m' s' : Bool} (w : OrdersWorld out)
      → b ≡ b'
      → i ≡ i'
      → m ≡ m'
      → s ≡ s'
      → Leaving out ordered b i m s w
      → Leaving out ordered b' i' m' s' w
  same-Leaving w p q r s v =
      subst (λ (k : Bool × Bool × Bool × Bool). Leaving out ordered k.0 k.1 k.2 k.3 w)
        (λ j. (p j, q j, r j, s j)) v

  abbrev Fell : Ctx → List Name → OrdersWorld out → Name → ℕ → Type 0
  Fell ctx started w x h =
      let r = (base_modules (program out)).destroy_module h ctx w in
      (r.0 ≡ none) × Falling (without x started) r.1

  pub goes_down :
      (ctx : Ctx) (started : List Name) (w : OrdersWorld out) (x : Name) (n : Node)
      → Falling started w
      → find_node x orders_nodes ≡ some n
      → Occurs x started
      → Fell ctx started w x n.handle
  unfolding name_discrete
  goes_down ctx started w x n v f o = elim (find_node-IsPart x n f) [
    | is_bus e q ↦ at e q (
        let up = is_up-stays bus_name in
        let (z, u) =
          bus_down out ordered ctx _ _ _ w
            (same-Leaving w (is_up-dep bus_name started (there e)) refl refl refl v) in
        (
          z,
          same-Leaving _ (sym (is_up-gone bus_name started)) (sym (up inventory_name started refl))
              (sym (up mailer_name started refl)) (sym (up shop_name started refl)) u,
        ))
    | is_inventory e q ↦ at e q (
        let up = is_up-stays inventory_name in
        let (z, u) =
          inventory_down out ordered ctx _ _ _ w
            (same-Leaving w refl (is_up-dep inventory_name started (there e)) refl refl v) in
        (
          z,
          same-Leaving _ (sym (up bus_name started refl)) (sym (is_up-gone inventory_name started))
              (sym (up mailer_name started refl)) (sym (up shop_name started refl)) u,
        ))
    | is_mailer e q ↦ at e q (
        let up = is_up-stays mailer_name in
        let (z, u) =
          mailer_down out ordered ctx _ _ _ w
            (same-Leaving w refl refl (is_up-dep mailer_name started (there e)) refl v) in
        (
          z,
          same-Leaving _ (sym (up bus_name started refl)) (sym (up inventory_name started refl))
              (sym (is_up-gone mailer_name started)) (sym (up shop_name started refl)) u,
        ))
    | is_shop e q ↦ at e q (
        let up = is_up-stays shop_name in
        let (z, u) =
          shop_down out ordered ctx _ _ _ w
            (same-Leaving w refl refl refl (is_up-dep shop_name started (there e)) v) in
        (
          z,
          same-Leaving _ (sym (up bus_name started refl)) (sym (up inventory_name started refl))
              (sym (up mailer_name started refl)) (sym (is_up-gone shop_name started)) u,
        ))
  ]
    where
      there : {y : Name} → x ≡ y → Occurs y started
      there e = subst (λ z. Occurs z started) e o

      at :
          {y : Name} {m : Node}
          → x ≡ y
          → n ≡ m
          → Fell ctx started w y m.handle
          → Fell ctx started w x n.handle
      at e q h =
          subst (λ (k : Name × Node). Fell ctx started w k.0 (k.1).handle) (sym (λ i. (e i, q i))) h

  abbrev pub orders_fall : (ctx : Ctx) → Falls (base_modules (program out)) ctx orders_nodes
  orders_fall ctx = record {
    S = Falling;
    open_ended = context-none out ctx;
    goes_down = goes_down ctx;
  }
