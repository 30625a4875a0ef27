-- ===== src/Manager/Trials.antt =====
-- Managers at work on the small applications, and the theorems at these inputs.
use appmod.Common.{
  ◌++◌, Occurs, subst, bytes, inr, All, ℕ, true, select, Name, false, List, [], ◌∷◌, none, some,
  ◌≡◌, refl, arith, Perm, ◌==◌, if◌then◌else◌, ◌↔◌,
}
use mathlib.Core.List.Perm
use mathlib.Core.Option.{some-injective}
use appmod.Manager.Backing.{IsBacked}
use appmod.Errors.{
  Sentinel, shutdown_timeout, modules_still_running, sentinel, is_err?, is_err, foreign, canceled,
  wrapped, module_failed_to_start, module_failed_to_stop, joined, errs_of,
}
use appmod.Base.Environment.{given, detached}
use appmod.Manager.Defs.{
  Node, Nodes, Manager, ManagerState, created, with_force_on_second_signal, register, stopped,
  running, new_manager,
}
use appmod.Manager.Layers.{concat}
use appmod.Manager.Modules.{Modules}
use appmod.Manager.Teardown.{At, stop, stop_layers}
use appmod.Manager.StopLayers.{stop_layers-perm}
use appmod.Manager.Stopping.{Stopped, WellFormed, stop-Stopped}
use appmod.Manager.Startup.{start, health}
use appmod.Manager.Registering.{Registered, register-Registered}
use appmod.Manager.Running.{run, wait_timed_out}
use appmod.Manager.TimingOut.{wait_timed_out-names}
use appmod.Manager.Probing.{is_probed, by_probe, health_lem}
use appmod.Manager.Calling.{answers, behind, Quiet, Told}
use appmod.Manager.PlannedUnwinding.{IsUnwound}
use appmod.Manager.Unwinding.{stop_layers-IsUnwound}
use appmod.Manager.Soundness.{IsSound, force, no_option, one_more}
use appmod.Manager.Histories.{Program, made, after, registers, starts}
use appmod.Manager.Reaching.{Reached-IsSound}
use appmod.Manager.Launching.{Answered, start-Answered}
use appmod.Manager.Examples.{node, db, cache, api, app, dangling, program, app-IsMap}

-- The module 4 never comes up, and the module 2 fails to stop; in the world 1 the contexts are done.
abbrev sample : Modules
sample = record {
  World = ℕ;
  ctx_err = λ c w. if w == 0 then none else some (sentinel canceled);
  init_module = λ h ctx w. (if h == 4 then some (foreign 5) else none, w);
  destroy_module = λ h ctx w. (if h == 2 then some (foreign 6) else none, w);
  inject = λ h w. w;
  checks_health = λ h. h == 1;
  health_check = λ h ctx w. (none, w);
  end_shutdown = λ w. w;
  await_shutdown = λ ctx w. w;
  teardown_ctx = λ ctx w. detached ctx;
  wait_result = λ e w. e;
  sh_exit_code = λ w. 0;
  arrange = λ w names. names;
  arrange-perm = λ w names. Perm.refl names;
}

abbrev manager_of : Nodes → List Name → ManagerState → Manager
manager_of ns started state = record (new_manager 0 []) {
  nodes = ns;
  started = started;
  state = state;
}

abbrev idle : At sample
idle = record { world = 0; manager = manager_of app [] created }

-- Here `api` fails.
abbrev failing : At sample
failing = record {
  world = 0;
  manager =
      manager_of
        ((api, node 4 (cache ∷ db ∷ [])) ∷ (db, node 1 []) ∷ (cache, node 2 (db ∷ [])) ∷ []) []
        stopped;
}

abbrev up_and_running : At sample
up_and_running = record { world = 0; manager = manager_of app (db ∷ cache ∷ api ∷ []) running }

run_all : Unit {0}
unfolding program start stop new_manager
run_all = tt

start-idle : start sample (given 0) idle ≡ (none, up_and_running)
unfolding run_all
start-idle = refl

start-failing : start sample (given 0) failing ≡ (
  some (
      joined (
        errs_of (
          joined (errs_of (wrapped (module_failed_to_start api) (foreign 5) ∷ []))
          ∷ joined (errs_of (wrapped (module_failed_to_stop cache) (foreign 6) ∷ []))
          ∷ []))),
  failing,
)
unfolding run_all
start-failing = refl

start-Answered_example :
    let w = start sample (given 0) failing in Answered sample (given 0) failing w.0 w.1
start-Answered_example = start-Answered sample (given 0) failing (λ d. ground arith)

up_and_running-WellFormed : WellFormed up_and_running.manager
up_and_running-WellFormed = record {
  registered = λ d o. ground arith;
  distinct = λ d. ground arith;
}

stop-Stopped_example :
    let w = stop sample (given 0) up_and_running in Stopped sample (given 0) up_and_running w.0 w.1
stop-Stopped_example = stop-Stopped sample (given 0) up_and_running up_and_running-WellFormed

-- The dependencies have become unknown.
stop_layers-perm_example : Perm (concat (stop_layers dangling (db ∷ api ∷ []))) (db ∷ api ∷ [])
stop_layers-perm_example = stop_layers-perm dangling (db ∷ api ∷ []) (λ d. ground arith)

abbrev made_one : At sample
made_one = record { world = 0; manager = new_manager 0 (with_force_on_second_signal false ∷ []) }

abbrev with_db : At sample
with_db = record made_one { manager = (register db (some 1) [] made_one.manager).1 }

-- Anything may happen between two operations.
abbrev any_program : Program sample
any_program = record { initial = λ w. Unit; other = λ w w'. Unit }

Reached-IsSound_example : IsSound (start sample (given 0) with_db).1.manager
Reached-IsSound_example = Reached-IsSound sample any_program (start sample (given 0) with_db).1 (
    after with_db (start sample (given 0) with_db).1
      (after made_one with_db
        (made 0 0 (with_force_on_second_signal false ∷ []) tt
          (one_more (with_force_on_second_signal false) [] (force false) no_option))
        (registers db (some 1) []))
      (starts (given 0)))

-- A cache was registered that depends on an unknown module, so that there is no plan any more.
abbrev stuck : Nodes
stuck = (api, node 3 (db ∷ [])) ∷ (db, node 1 []) ∷ (cache, node 2 (bytes "disk" ∷ [])) ∷ []

stuck-IsBacked : IsBacked stuck [] (db ∷ api ∷ [])
unfolding program
stuck-IsBacked = (
  (λ n e. subst (λ (m : Node). All (λ d. Occurs d []) m.deps) (some-injective _ _ e) tt),
  (
    (λ n e.
        subst (λ (m : Node). All (λ d. Occurs d (db ∷ [])) m.deps) (some-injective _ _ e)
          (ground arith, tt)),
    tt,
  ),
)

stop_layers-IsUnwound_example :
    IsUnwound stuck (db ∷ api ∷ []) [] (stop_layers stuck (db ∷ api ∷ []))
stop_layers-IsUnwound_example =
    stop_layers-IsUnwound stuck (db ∷ api ∷ []) (λ d. ground arith) (λ d. ground arith)
      (λ d o. ground arith) (inr stuck-IsBacked)

register-Registered_example :
    let w = register db (some 9) [] (manager_of app [] created) in
    Registered db (some 9) [] (manager_of app [] created) w.0 w.1
register-Registered_example = register-Registered db (some 9) [] (manager_of app [] created)

health_lem_example :
    let probed = select (is_probed sample (given 0) app) (db ∷ cache ∷ api ∷ []) in
    let answered = answers (by_probe sample (given 0)) app probed 0 in
    let (res, s') = health sample (given 0) up_and_running in
    (s'.world ≡ behind (by_probe sample (given 0)) app probed 0)
    × ((res ≡ none) ↔ All Quiet answered)
    × All (Told res) answered
    × (s'.manager ≡ up_and_running.manager)
health_lem_example = health_lem sample (given 0) up_and_running

idle-IsSound : IsSound idle.manager
unfolding new_manager
idle-IsSound = record {
  is_map = app-IsMap;
  well_formed = record { registered = λ d o. ground arith; distinct = λ d. ground arith };
  rested = λ e. cc;
  fresh = λ e. refl;
}

stop_layers-app :
    stop_layers app (db ∷ cache ∷ api ∷ []) ≡ (api ∷ []) ∷ (cache ∷ []) ∷ (db ∷ []) ∷ []
unfolding run_all
stop_layers-app = refl

is_timeout : is_err (sentinel shutdown_timeout) shutdown_timeout ≡ true
unfolding is_err
is_timeout = refl

-- The module of the cache hangs, so that the database is still up, too.
wait_timed_out-names_example :
    let (res, s') =
      wait_timed_out sample
        (given 0)
        (sentinel shutdown_timeout)
        ((api ∷ []) ++ [])
        up_and_running in
    Perm s'.manager.started ((cache ∷ []) ++ concat ((db ∷ []) ∷ []))
    × (s'.manager.state ≡ stopped)
    × (res ≡ some (wrapped (modules_still_running s'.manager.started) (sentinel shutdown_timeout)))
    × ((t : Sentinel) → is_err? res t ≡ is_err (sentinel shutdown_timeout) t)
wait_timed_out-names_example =
    wait_timed_out-names sample (given 0) up_and_running (sentinel shutdown_timeout)
      ((api ∷ []) ∷ []) (cache ∷ []) ((db ∷ []) ∷ []) (api ∷ []) [] (cache ∷ [])
      up_and_running-WellFormed is_timeout stop_layers-app
      (api ∷ [], [], refl, Perm.refl (api ∷ []), refl) (Perm.refl (cache ∷ [])) (λ e. cc)

run-idle :
    let w = run sample (given 0) idle in
    (is_err? w.0 canceled ≡ false) × (w.1.manager.started ≡ []) × (w.1.manager.ran ≡ true)
unfolding run_all run is_err
run-idle = (refl, refl, refl)
