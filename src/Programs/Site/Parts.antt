-- ===== src/Programs/Site/Parts.antt =====
-- examples/manager/main.go: the modules with their hooks, and what `main` makes of them.
use appmod.Common.{
  ℕ, zero, suc, ℤ, false, Name, bytes, Option, none, some, List, [], ◌∷◌, ◌==◌, if◌then◌else◌, Perm,
}
use appmod.Phase.{after_start, before_destroy}
use appmod.Errors.{Err}
use appmod.Config.{new_config}
use appmod.Base.Defs.{Base, zero_value, set_config, add_anonymous, ◌>>=◌}
use appmod.Base.Environment.{Environment, Ctx, Call, returned}
use appmod.Base.Options.{new_module, with_config}
use appmod.Manager.Defs.{Manager, new_manager, register, with_logger, with_shutdown_timeout}
use appmod.App.{Rest}
use appmod.Programs.Site.{
  Shared, provide_db, revoke_db, start_cache, start_worker, drain_worker, start_api,
}

abbrev pub config_name : Name
config_name = bytes "config"

abbrev pub db_name : Name
db_name = bytes "db"

abbrev pub worker_name : Name
worker_name = bytes "worker"

abbrev pub cache_name : Name
cache_name = bytes "cache"

abbrev pub api_name : Name
api_name = bytes "api"

abbrev pub configured : Name → Base
configured name = set_config (some (new_config name (bytes "v1"))) zero_value

-- The constructors. The hooks of the db module are 0 and 1, that of the cache module is 2, those of
-- the worker are 3 and 4, and that of the api module is 5.
unfoldable pub new_db : Option Base
unfolding add_anonymous
new_db = do
  b ← add_anonymous after_start (some 0) (configured db_name)
  add_anonymous before_destroy (some 1) b

unfoldable pub new_cache : Option Base
unfolding add_anonymous
new_cache = add_anonymous after_start (some 2) (configured cache_name)

unfoldable pub new_worker : Option Base
unfolding add_anonymous
new_worker = do
  b ← add_anonymous after_start (some 3) (configured worker_name)
  add_anonymous before_destroy (some 4) b

unfoldable pub new_api : Option Base
unfolding add_anonymous
new_api = add_anonymous after_start (some 5) (configured api_name)

unfoldable pub new_config_module : Option Base
unfolding new_module with_config
new_config_module = new_module (with_config (some (new_config config_name (bytes "v1"))) ∷ [])

-- The constructors panic nowhere.
abbrev pub made : Option Base → Base
made none = zero_value
made (some b) = b

-- The modules by their pointers: config, db, worker, cache and api.
unfoldable pub parts : ℕ → Base
unfolding new_config_module new_db new_worker new_cache new_api
parts h =
    if h == 0
    then made new_config_module
    else if h == 1
    then made new_db
    else if h == 2
    then made new_worker
    else if h == 3
    then made new_cache
    else made new_api

-- What a hook does when it is called.
unfoldable pub hook_result : ℕ → Shared → Option Err × Shared
unfolding provide_db revoke_db start_cache start_worker drain_worker start_api
hook_result zero w = provide_db w
hook_result (suc zero) w = revoke_db w
hook_result (suc (suc zero)) w = start_cache w
hook_result (suc (suc (suc zero))) w = start_worker w
hook_result (suc (suc (suc (suc zero)))) w = drain_worker w
hook_result (suc (suc (suc (suc (suc n))))) w = start_api w

-- No hook changes its module.
abbrev pub calm : Option Err × Shared → Call × Shared
calm (e, w) = (record { effects = []; outcome = returned e }, w)

-- What the program meets outside: contexts, go-shutdown and the scheduler.
pub record Outside : Type 0 where
  pub ctx_err : ℕ → Shared → Option Err
  pub end_shutdown : Shared → Shared
  pub await_shutdown : Ctx → Shared → Shared
  pub teardown_ctx : Ctx → Shared → Ctx
  pub wait_result : Option Err → Shared → Option Err
  pub sh_exit_code : Shared → ℕ
  pub arrange : Shared → List Name → List Name
  pub arrange-perm : (w : Shared) (names : List Name) → Perm (arrange w names) names

module _ (out : Outside) where
  -- There are no cleanups.
  abbrev pub site_env : Environment
  site_env = record {
    World = Shared;
    ctx_err = out.ctx_err;
    call_hook = λ fn ctx v w. calm (hook_result fn w);
    call_cleanup = λ fn ctx w. (record { effects = []; outcome = returned none }, w);
  }

  abbrev pub site : Rest
  site = record {
    env = site_env;
    app_ctx = 0;
    checks_health = λ h. false;
    health_check = λ h ctx w. (none, w);
    end_shutdown = out.end_shutdown;
    await_shutdown = out.await_shutdown;
    teardown_ctx = out.teardown_ctx;
    wait_result = out.wait_result;
    sh_exit_code = out.sh_exit_code;
    arrange = out.arrange;
    arrange-perm = out.arrange-perm;
  }

-- `must`: none is its panic.
abbrev pub must : Option Err × Manager → Option Manager
must (none, m) = some m
must (some e, m) = none

-- The manager of `main` before it is run; `logger` is the one that `main` makes, and `seconds` five
-- seconds.
unfoldable pub main_manager : (logger : ℕ) (seconds : ℤ) → Option Manager
unfolding new_manager register with_logger with_shutdown_timeout
main_manager logger seconds = do
  m1 ← must (
      register config_name (some 0) []
        (new_manager 0 (with_logger (some logger) ∷ with_shutdown_timeout seconds ∷ [])))
  m2 ← must (register db_name (some 1) (config_name ∷ []) m1)
  m3 ← must (register worker_name (some 2) (config_name ∷ []) m2)
  m4 ← must (register cache_name (some 3) (config_name ∷ db_name ∷ []) m3)
  must (register api_name (some 4) (db_name ∷ cache_name ∷ []) m4)
