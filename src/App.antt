-- ===== src/App.antt =====
-- An application: a manager whose modules are `BaseAppModule`s, base.go under manager.go.
pub mod Running
pub mod History
pub mod Orphans
pub mod Watching
pub mod Ordering
pub mod Settling
pub mod Liveness
pub mod Together
pub mod Fitting
pub mod Ending
pub mod Interleaved
mod Crossing
mod Trials
mod Examples
use appmod.Common.{ℕ, ℕ_discrete, ite, Name, List, Option, none, some, Bool, Perm}
use appmod.Errors.{Err}
use appmod.Base.Defs.{Base, created, set_app_context}
use appmod.Base.Environment.{Environment, Ctx, Effect, apply_all}
use appmod.Base.Lifecycle.{Run, init, destroy}
use appmod.Manager.Modules.{Modules}

-- A module stands for the pointer with its number, and the store has its fields.
pub record Store (W : Type 0) : Type 0 where
  pub outer : W
  pub base : ℕ → Base

-- The rest of an application: its hooks and cleanups, the context that the manager injects, which
-- modules check their health and how, go-shutdown, and the scheduler.
pub record Rest : Type 1 where
  pub env : Environment
  pub app_ctx : ℕ
  pub checks_health : ℕ → Bool
  pub health_check : ℕ → Ctx → env.World → Option Err × env.World
  pub end_shutdown : env.World → env.World
  pub await_shutdown : Ctx → env.World → env.World
  pub teardown_ctx : Ctx → env.World → Ctx
  pub wait_result : Option Err → env.World → Option Err
  pub sh_exit_code : env.World → ℕ
  pub arrange : env.World → List Name → List Name
  pub arrange-perm : (w : env.World) (names : List Name) → Perm (arrange w names) names

module _ (rest : Rest) where
  open rest use {env}

  abbrev pub World : Type 0
  World = Store (env.World)

  -- A call of a method of the module `h`.
  abbrev pub enter_module : ℕ → World → Run (env.World)
  enter_module h w = record { world = w.outer; base = w.base h }

  abbrev pub put_base : ℕ → Base → (ℕ → Base) → ℕ → Base
  put_base h b f i = ite (ℕ_discrete i h) b (f i)

  abbrev pub leave_module : ℕ → World → Option Err × Run (env.World) → Option Err × World
  leave_module h w (e, r) = (e, record { outer = r.world; base = put_base h r.base w.base })

  abbrev pub around : (env.World → env.World) → World → World
  around f w = record w { outer = f w.outer }

  abbrev pub checked : World → Option Err × env.World → Option Err × World
  checked w (e, o) = (e, record w { outer = o })

  -- The methods that the manager calls, which a `BaseAppModule` has.
  abbrev pub base_modules : Modules
  base_modules = record {
    World = World;
    ctx_err = λ c w. env.ctx_err c w.outer;
    init_module = λ h ctx w. leave_module h w (init env ctx (enter_module h w));
    destroy_module = λ h ctx w. leave_module h w (destroy env ctx (enter_module h w));
    inject = λ h w. record w {
      base = put_base h (set_app_context (some rest.app_ctx) (w.base h)) w.base;
    };
    checks_health = rest.checks_health;
    health_check = λ h ctx w. checked w (rest.health_check h ctx w.outer);
    end_shutdown = around rest.end_shutdown;
    await_shutdown = λ ctx. around (rest.await_shutdown ctx);
    teardown_ctx = λ ctx w. rest.teardown_ctx ctx w.outer;
    wait_result = λ e w. rest.wait_result e w.outer;
    sh_exit_code = λ w. rest.sh_exit_code w.outer;
    arrange = λ w. rest.arrange w.outer;
    arrange-perm = λ w. rest.arrange-perm w.outer;
  }
