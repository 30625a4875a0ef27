-- ===== src/Hub.antt =====
-- adapters/hubmod/hubmod.go: a module that owns a hub of msghub, which is a parameter.
pub mod Shutdown
pub mod Restart
mod Examples
use appmod.Common.{ℕ, zero, suc, Option, none, some, List, [], ◌∷◌, ◌++◌, Bool, true, false, bytes}
use appmod.Phase.{after_start, after_destroy}
use appmod.Errors.{Err, sentinel, join, nil_hub, hub_nil_module, no_app_context}
use appmod.Config.{Config, new_config}
use appmod.Base.Defs.{Base, add_anonymous, add_cleanup, ◌>>=◌}
use appmod.Base.Environment.{Environment, Ctx, View, Call, Outcome, returned, adds_cleanup, Effect}
use appmod.Base.Options.{ModuleOption, apply_options, new_module, with_config}
use appmod.Registry.{Registry, Value, Types, Found, provide, require, revoke}

-- The rest of the program, with msghub: `Drain` and `Close` of the hub.
pub record Bus : Type 1 where
  pub env : Environment
  pub drain : Ctx → env.World → Option Err × env.World
  pub close : Ctx → env.World → Option Err × env.World

-- The world of a hub module: the registry that `m.registry()` leads to, which is none where there
-- is no application context, and the rest.
pub record Shared (W : Type 0) : Type 0 where
  pub registry : Option Registry
  pub rest : W

-- The fields `drain` and `provided` of a `Module`.
pub record Settings : Type 0 where
  pub drains : Bool
  pub provided : Bool

unfoldable pub without_drain : Settings → Settings
without_drain s = record s { drains = false }

unfoldable pub without_registry : Settings → Settings
without_registry s = record s { provided = false }

unfoldable pub apply_settings : List (Settings → Settings) → Settings → Settings
apply_settings [] s = s
apply_settings (o ∷ os) s = apply_settings os (o s)

-- What `NewModule` adds if the hub is to be published: the hook 0 and the cleanup 0.
unfoldable pub publish : Bool → Base → Option Base
unfolding add_anonymous add_cleanup
publish false b = some b
publish true b = do b' ← add_anonymous after_start (some 0) b; some (add_cleanup (some 0) b')

-- The module of `NewModule`; `shutdown` is its hook 1.
unfoldable pub hub_base : Settings → Option Base
unfolding new_module with_config new_config publish add_anonymous
hub_base s = do
  b ← new_module (with_config (some (new_config (bytes "hub") (bytes "v3"))) ∷ [])
  b' ← publish s.provided b
  add_anonymous after_destroy (some 1) b'

-- `NewModule`: none is the panic for a nil hub.
unfoldable pub new_hub_module : Option Value → List (Settings → Settings) → Option (Base × Settings)
unfolding apply_settings hub_base
new_hub_module none opts = none
new_hub_module (some hub) opts =
    let s = apply_settings opts (record { drains = true; provided = true }) in
    do b ← hub_base s; some (b, s)

-- `Configure`; none is the panic of an option.
unfoldable pub configure : List ModuleOption → Base → Option Base
unfolding apply_options
configure opts b = apply_options opts b

module _ (types : Types) (contract : ℕ) where
  -- `Provide` and `Require` of the adapter, for the contract `*msghub.Hub`.
  unfoldable pub provide_hub : Option Registry → Option Value → Option Err × Option Registry
  unfolding provide
  provide_hub r none = (some (sentinel nil_hub), r)
  provide_hub r (some hub) = provide types contract r hub

  unfoldable pub require_hub : Option Registry → Found types
  unfolding require
  require_hub r = require types contract r

  module _ (bus : Bus) where
    open bus use {env, drain, close}

    abbrev pub W : Type 0
    W = env.World

    abbrev pub drain_if : Bool → Ctx → W → Option Err × W
    drain_if true ctx w = drain ctx w
    drain_if false ctx w = (none, w)

    abbrev pub as_list : Option Err → List Err
    as_list none = []
    as_list (some e) = e ∷ []

    unfoldable pub shutdown : Settings → Ctx → W → Option Err × W
    shutdown s ctx w =
        let (d, w1) = drain_if s.drains ctx w in
        let (c, w2) = close ctx w1 in (join (as_list d ++ as_list c), w2)

    abbrev quiet : Option Err → Call
    quiet e = record { effects = []; outcome = returned e }

    module _ (s : Settings) (hub : Value) where
      unfoldable pub call_hub_hook : ℕ → Ctx → View → Shared W → Call × Shared W
      unfolding provide_hub shutdown
      call_hub_hook zero ctx v w =
          let (e, r) = provide_hub w.registry (some hub) in (quiet e, record w { registry = r })
      call_hub_hook (suc zero) ctx v w =
          let (e, rest) = shutdown s ctx w.rest in (quiet e, record w { rest = rest })
      call_hub_hook (suc (suc fn)) ctx v w =
          let (call, rest) = env.call_hook fn ctx v w.rest in (call, record w { rest = rest })

      unfoldable pub call_hub_cleanup : ℕ → Ctx → Shared W → Call × Shared W
      unfolding revoke
      call_hub_cleanup zero ctx w =
          let (found, e, r) = revoke contract w.registry in (quiet e, record w { registry = r })
      call_hub_cleanup (suc fn) ctx w =
          let (call, rest) = env.call_cleanup fn ctx w.rest in (call, record w { rest = rest })

      -- The closures 0 and 1 are the adapter's, the others the application's.
      abbrev pub hub_env : Environment
      hub_env = record {
        World = Shared W;
        ctx_err = λ c w. env.ctx_err c w.rest;
        call_hook = call_hub_hook;
        call_cleanup = call_hub_cleanup;
      }

  -- `SubscribeModule`, given what `msghub.Subscribe` returns: the error, and the cleanup that it
  -- registers, which closes the subscription.
  unfoldable pub subscribe_module :
      (module' : Option (Option ℕ))
      → Option Value
      → (subscribed : Option Err × ℕ) → Option Err × List Effect
  subscribe_module none hub sub = (some (sentinel hub_nil_module), [])
  subscribe_module (some app_ctx) none sub = (some (sentinel nil_hub), [])
  subscribe_module (some none) (some hub) sub = (some (sentinel no_app_context), [])
  subscribe_module (some (some c)) (some hub) (some e, close) = (some e, [])
  subscribe_module (some (some c)) (some hub) (none, close) = (none, adds_cleanup (some close) ∷ [])
