-- ===== src/Lib.antt =====
-- appmod: a Go library for modules with a lifecycle, and a manager that starts and stops them.
--
-- A module is a `BaseAppModule` (base.go): a state (state.go), hooks by phase (hook.go), cleanups,
-- a configuration (config.go), a logger and the shared context (appcontext.go). `Init` runs the
-- BeforeStart and AfterStart hooks, `Destroy` the BeforeDestroy hooks, the cleanups and the
-- AfterDestroy hooks. A `Manager` (manager.go) holds modules by name with their dependencies,
-- plans them in layers, starts the layers one behind the other with the modules of each layer at
-- the same time, and stops them in reverse. Modules find one another's services in a `Registry`
-- (registry.go).
--
-- Phase: `Phase` of hook.go and its validity.
-- Errors: the error values of errors.go, `HookError` of hook.go, `fmt.Errorf` with `%w` as
-- `wrapped`, `errors.Join` as `join` and `errors.Is` as `is_err`. A message is a note with its
-- parameters.
-- Config: `Config`.
-- Base: base.go. Defs has the fields of a module and what runs no foreign code (`AddHook`,
-- `RemoveHook`, `AddCleanup` and the setters), Lifecycle has `orderHooks`, `runPhase`, `runHook`,
-- `runCleanups`, `Init`, `failInit` and `Destroy`, Options has `New` and the options of
-- options.go. Environment is the interface to the rest of the program. A hook or cleanup is a
-- closure, here a number, and what it does is a parameter: it changes its module through the
-- public methods, changes the world, and returns or panics. A logger and a context are numbers
-- too. Callers has the callers of `Init` and `Destroy` of one module among one another, by the
-- sections that the mutex makes: a move is one section. Steps cuts `Init` into steps of one hook or
-- one cleanup, between which other goroutines may run. Balance counts what the hooks acquire.
-- Recording adds to any environment a log of what was called, Passing has what some hooks do, called
-- in turn, and the laws of the lifecycle are stated of these.
-- Registry: registry.go, with contracts (Go types) as numbers, and what Go's reflection says of a
-- value as parameters of the operations.
-- Manager: manager.go. Defs has the state, the options, `Register` and `Modules`, Plan has `plan`
-- and `validateDeps`, Teardown has `stopLayers`, `stopLayer`, `forget` and `Stop`, Startup has
-- `Start`, `startLayer`, `abort` and `Health`, Running has `Run`, `Shutdown`, `ExitCode` and
-- `describeTimeout`, and Histories the sequences of operations. Modules is the interface to the
-- modules: their methods are steps of a world. It also has what the code calls of go-shutdown:
-- `End`, `Wait` up to its hook, the context of that hook, what `Wait` makes of its error, and
-- `ExitCode`. Callers has the callers of one manager among one another, as Base has. Keeping,
-- Climbing and Invariance carry a claim that the modules keep over a whole history. Calling has what
-- modules answer to one method, called in turn, of which the laws of `Start`, `Stop` and `Health` are
-- stated. The goroutines
-- of a layer run to completion one behind the other, in an order that is a parameter and may
-- differ at every call (App.Together lets them take turns). The map of modules is an association
-- list in the order of a `range`, which may be any order; `IsMap` says that no name stands twice.
-- App: an application, which is Manager with the modules of Base: a module is a number, and a
-- store has the fields of each. Running says which modules are up, Orphans which run though the
-- manager has forgotten them, Watching what a module sees of a shutdown, Ordering what runs when a
-- module is started, and Settling and Liveness what holds of hooks that never fail. Together lets
-- the goroutines of a layer take turns, one hook or cleanup of base.go at a time.
-- AppContext: appcontext.go. A channel is a number, and so is the context of the shutdown
-- sequence.
-- Hub: adapters/hubmod/hubmod.go, a module on Base whose closures use Registry. The hub of msghub
-- is a parameter: what `Drain`, `Close` and `Subscribe` do. Its closures are the hooks 0
-- (`Provide`) and 1 (`shutdown`) and the cleanup 0 (`Revoke`); higher numbers are the
-- application's.
-- Programs: the programs under examples/ and adapters/hubmod/examples/, as clients of the other
-- parts. Greeter is examples/basic/main.go and Hooks examples/hooks/main.go. Site is
-- examples/manager/main.go: its hooks are numbers from 0 on, as Parts says, and its world is what
-- they share, with the goroutine of the worker as the count of those that have not ended. Orders
-- is adapters/hubmod/examples/orders/main.go, on Hub, with msghub as the parameter `Broker`;
-- Documented says what msghub promises, by the open subscriptions and the queues. Started has
-- what both share. Manager.Rising and Manager.Falling carry a claim through one `Start` and one
-- `Stop` of a manager whose modules can all be started and stopped.
--
-- Loops are recursions over the list that the Go code ranges over. The one loop of `plan` that
-- ranges over no list is on fuel, as much as there are modules; no layer is empty, so this is
-- enough, and the results on `plan` prove it.
--
-- Not modelled: goroutines that change a module's fields in the middle of its phases; modules of a
-- layer whose `Destroy` run at the same time step by step; log output; what `Stop` goes on to do when
-- `Wait` has given up on it, and what a later call then meets; and of the programs, what a goroutine
-- prints and when a ticker or a timer fires. A module's methods do not call back into the manager, and a hook changes no other module
-- than its own.
pub mod Common
pub mod Phase
pub mod Errors
pub mod Config
pub mod Base
pub mod Registry
pub mod Manager
pub mod Hub
pub mod App
pub mod AppContext
pub mod Programs
