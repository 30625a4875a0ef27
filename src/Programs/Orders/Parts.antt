-- ===== src/Programs/Orders/Parts.antt =====
-- adapters/hubmod/examples/orders/main.go: the modules with their hooks, and `main`.
use appmod.Common.{
  ℕ, zero, suc, Name, bytes, false, Option, none, some, List, [], ◌∷◌, ◌==◌, if◌then◌else◌, Perm,
}
use appmod.Phase.{after_start, before_destroy}
use appmod.Errors.{Err}
use appmod.Config.{new_config}
use appmod.Base.Defs.{Base, zero_value, set_config, add_anonymous, ◌>>=◌}
use appmod.Base.Environment.{Environment, Ctx, View, Call}
use appmod.Hub.{new_hub_module, call_hub_hook, call_hub_cleanup}
use appmod.Hub.Restart.{defaults}
use appmod.Manager.Defs.{Manager, new_manager, register}
use appmod.Manager.Teardown.{At, stop}
use appmod.Manager.Startup.{start}
use appmod.App.{Rest, World, base_modules}
use appmod.Programs.Orders.{
  Broker, Desk, Order, S, D, hub_types, hub_contract, bus_value, desk_bus, subscribe_handler, tally,
  open_shop, quiet, must, place,
}

abbrev pub bus_name : Name
bus_name = bytes "bus"

abbrev pub inventory_name : Name
inventory_name = bytes "inventory"

abbrev pub mailer_name : Name
mailer_name = bytes "mailer"

abbrev pub shop_name : Name
shop_name = bytes "shop"

abbrev pub configured : Name → Base
configured name = set_config (some (new_config name (bytes "v1"))) zero_value

-- The constructors. The hooks 0 and 1 are the adapter's, the hook of the inventory is 2, those of
-- the mailer are 3 and 4, and that of the shop is 5.
unfoldable pub new_inventory : Option Base
unfolding add_anonymous set_config
new_inventory = add_anonymous after_start (some 2) (configured inventory_name)

unfoldable pub new_mailer : Option Base
unfolding add_anonymous set_config
new_mailer = do
  b ← add_anonymous after_start (some 3) (configured mailer_name)
  add_anonymous before_destroy (some 4) b

unfoldable pub new_shop : Option Base
unfolding add_anonymous set_config
new_shop = add_anonymous after_start (some 5) (configured shop_name)

unfoldable pub new_bus : Option Base
unfolding new_hub_module
new_bus = do made ← new_hub_module (some bus_value) []; some made.0

-- The constructors panic nowhere.
abbrev pub made : Option Base → Base
made none = zero_value
made (some b) = b

-- The modules by their pointers: bus, inventory, mailer and shop.
unfoldable pub parts : ℕ → Base
unfolding new_bus new_inventory new_mailer new_shop
parts h =
    if h == 0
    then made new_bus
    else if h == 1
    then made new_inventory
    else if h == 2
    then made new_mailer
    else made new_shop

-- What happens between the start and the stop.
pub data Event : Type 0 where
  places : Order → Event
  restarts_mailer : Event

module _ (broker : Broker) (ctx_err : ℕ → Desk (broker.Hub) → Option Err) where
  abbrev pub W : Type 0
  W = S broker ctx_err

  unfoldable pub call_hook : ℕ → Ctx → View → W → Call × W
  unfolding call_hub_hook subscribe_handler tally open_shop
  call_hook zero ctx v w =
      call_hub_hook hub_types hub_contract (desk_bus broker ctx_err) defaults bus_value 0 ctx v w
  call_hook (suc zero) ctx v w =
      call_hub_hook hub_types hub_contract (desk_bus broker ctx_err) defaults bus_value 1 ctx v w
  call_hook (suc (suc zero)) ctx v w = subscribe_handler broker ctx_err 0 w
  call_hook (suc (suc (suc zero))) ctx v w = subscribe_handler broker ctx_err 1 w
  call_hook (suc (suc (suc (suc zero)))) ctx v w = tally broker ctx_err w
  call_hook (suc (suc (suc (suc (suc n))))) ctx v w = open_shop broker ctx_err w

  -- `sub.Close()`.
  abbrev pub unsubscribe : ℕ → W → W
  unsubscribe s w = record w {
    rest = record (w.rest) { hub = broker.close_subscription s w.rest.hub };
  }

  unfoldable pub call_cleanup : ℕ → Ctx → W → Call × W
  unfolding call_hub_cleanup
  call_cleanup zero ctx w =
      call_hub_cleanup hub_types hub_contract (desk_bus broker ctx_err) defaults bus_value 0 ctx w
  call_cleanup (suc s) ctx w = quiet broker ctx_err none (unsubscribe s w)

  abbrev pub orders_env : Environment
  orders_env = record {
    World = W;
    ctx_err = λ c w. ctx_err c w.rest;
    call_hook = call_hook;
    call_cleanup = call_cleanup;
  }

  module _ (end_shutdown : W → W) (arrange : W → List Name → List Name)
      (arrange-perm : (w : W) (names : List Name) → Perm (arrange w names) names) where
    -- `main` calls neither `Run` nor `Health`.
    abbrev pub orders : Rest
    orders = record {
      env = orders_env;
      app_ctx = 0;
      checks_health = λ h. false;
      health_check = λ h ctx w. (none, w);
      end_shutdown = end_shutdown;
      await_shutdown = λ ctx w. w;
      teardown_ctx = λ ctx w. ctx;
      wait_result = λ e w. e;
      sh_exit_code = λ w. 0;
      arrange = arrange;
      arrange-perm = arrange-perm;
    }

    abbrev pub desk_placed : World orders → Option (D broker ctx_err) → Option (World orders)
    desk_placed w none = none
    desk_placed w (some d) = some (record w { outer = record (w.outer) { rest = d } })

    abbrev pub then_init : Ctx → Option (World orders) → Option (World orders)
    then_init ctx none = none
    then_init ctx (some w) = must broker ctx_err ((base_modules orders).init_module 2 ctx w)

    -- Each call stands under `must`.
    unfoldable pub happens : Ctx → Event → World orders → Option (World orders)
    unfolding place
    happens ctx (places o) w = desk_placed w (place broker ctx_err ctx o w.outer.rest)
    happens ctx restarts_mailer w =
        then_init ctx (must broker ctx_err ((base_modules orders).destroy_module 2 ctx w))

    unfoldable pub happen : Ctx → List Event → World orders → Option (World orders)
    unfolding happens
    happen ctx [] w = some w
    happen ctx (e ∷ es) w = do w' ← happens ctx e w; happen ctx es w'

    -- `main`, given the manager with its modules and what happens while it is up.
    unfoldable pub main_run :
        Ctx → List Event → At (base_modules orders) → Option (At (base_modules orders))
    unfolding happen start stop
    main_run ctx events s = do
      up ← must broker ctx_err (start (base_modules orders) ctx s)
      w ← happen ctx events up.world
      must broker ctx_err (stop (base_modules orders) ctx (record up { world = w }))

-- The manager of `main`.
abbrev pub accepted : Option Err × Manager → Option Manager
accepted (none, m) = some m
accepted (some e, m) = none

unfoldable pub main_manager : Option Manager
unfolding new_manager register
main_manager = do
  m1 ← accepted (register bus_name (some 0) [] (new_manager 0 []))
  m2 ← accepted (register inventory_name (some 1) (bus_name ∷ []) m1)
  m3 ← accepted (register mailer_name (some 2) (bus_name ∷ []) m2)
  accepted (register shop_name (some 3) (bus_name ∷ inventory_name ∷ mailer_name ∷ []) m3)
