-- ===== src/Manager/Modules.antt =====
-- What the manager calls: the methods of its modules, contexts, the scheduler, and go-shutdown.
use appmod.Common.{ℕ, Name, List, Option, none, Bool, Perm}
use appmod.Errors.{Err}
use appmod.Base.Environment.{Ctx, given, detached}
use appmod.Manager.Defs.{Manager}

-- A method of a module is one step of the world, given by the module's number. `inject` is
-- `SetAppContext` of a `ContextAware` module and does nothing for another; `checks_health` tells
-- which modules are `HealthChecker`s. Of go-shutdown, `end_shutdown` is `End`, `await_shutdown` is
-- `Wait` up to the moment at which it runs its hook, `teardown_ctx` the context that it hands to the
-- hook, `wait_result` what it returns, given what the hook returned, and `sh_exit_code` is
-- `ExitCode`. `arrange` is the order in which the goroutines that are started for some names
-- finish: each of them does, once.
pub record Modules : Type 1 where
  pub World : Type 0
  pub ctx_err : ℕ → World → Option Err
  pub init_module : ℕ → Ctx → World → Option Err × World
  pub destroy_module : ℕ → Ctx → World → Option Err × World
  pub inject : ℕ → World → World
  pub checks_health : ℕ → Bool
  pub health_check : ℕ → Ctx → World → Option Err × World
  pub end_shutdown : World → World
  pub await_shutdown : Ctx → World → World
  pub teardown_ctx : Ctx → World → Ctx
  pub wait_result : Option Err → World → Option Err
  pub sh_exit_code : World → ℕ
  pub arrange : World → List Name → List Name
  pub arrange-perm : (w : World) (names : List Name) → Perm (arrange w names) names

-- A manager among everything else.
pub record Sys (W : Type 0) : Type 0 where
  pub world : W
  pub manager : Manager

module _ (mods : Modules) where
  open mods use {World, ctx_err}

  -- `ctx.Err()`. A context detached by `context.WithoutCancel` is never canceled.
  abbrev pub context_err : Ctx → World → Option Err
  context_err (given c) w = ctx_err c w
  context_err (detached c) w = none
