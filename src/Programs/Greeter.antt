-- ===== src/Programs/Greeter.antt =====
-- examples/basic/main.go: the life of one module, as its hooks see it.
use appmod.Common.{ℕ, zero, suc, Name, bytes, Option, none, some, List, [], ◌∷◌, ◌++◌, ◌≡◌, refl}
use appmod.Phase.{after_start, before_start, before_destroy, after_destroy}
use appmod.Errors.{Err}
use appmod.Config.{new_config}
use appmod.Base.Defs.{
  Base, State, created, initializing, running, destroyed, zero_value, config_of, set_config,
  add_anonymous, ◌>>=◌,
}
use appmod.Base.Environment.{apply_all, Environment, Ctx, given, View, returned}
use appmod.Base.Lifecycle.{At, init, destroy}

-- What is printed.
pub data Line : Type 0 where
  state_after_creation state_after_init state_after_destroy : State → Line
  preparing : (name version : Name) → Line
  started : (name : Name) → State → Line
  releasing : (name : Name) → Line
  after_destroying : (name : Name) → State → Line

-- The hooks BeforeStart, AfterStart, BeforeDestroy and AfterDestroy are 0 to 3.
unfoldable pub told : ℕ → View → Line
told zero v = preparing v.config.name v.config.version
told (suc zero) v = started v.config.name v.state
told (suc (suc zero)) v = releasing v.config.name
told (suc (suc (suc n))) v = after_destroying v.config.name v.state

abbrev pub printing : Environment
printing = record {
  World = List Line;
  ctx_err = λ c w. none;
  call_hook = λ fn ctx v w. (record { effects = []; outcome = returned none }, w ++ told fn v ∷ []);
  call_cleanup = λ fn ctx w. (record { effects = []; outcome = returned none }, w);
}

abbrev pub say : (State → Line) → At printing → At printing
say line r = record r { world = r.world ++ line r.base.state ∷ [] }

-- The module before it gets its hooks, and with them.
unfoldable pub configured : Base
unfolding set_config zero_value
configured = set_config (some (new_config (bytes "greeter") (bytes "v1.2.0"))) zero_value

unfoldable pub greeter : Option Base
unfolding configured add_anonymous
greeter = do
  b1 ← add_anonymous before_start (some 0) configured
  b2 ← add_anonymous after_start (some 1) b1
  b3 ← add_anonymous before_destroy (some 2) b2
  add_anonymous after_destroy (some 3) b3

-- `log.Fatalf`: none is the end of the program.
abbrev pub or_fatal : Option Err × At printing → Option (At printing)
or_fatal (none, r) = some r
or_fatal (some e, r) = none

-- `main`.
unfoldable pub main_lines : Ctx → Option (At printing)
unfolding greeter init destroy
main_lines ctx = do
  let w = state_after_creation configured.state ∷ []
  b ← greeter
  r1 ← or_fatal (init printing ctx (record { world = w; base = b }))
  r2 ← or_fatal (destroy printing ctx (say state_after_init r1))
  some (say state_after_destroy r2)

main_lines_runs :
    (r : At printing) × (main_lines (given 0) ≡ some r)
    × (r.world
        ≡ state_after_creation created
          ∷ preparing (bytes "greeter") (bytes "v1.2.0")
          ∷ started (bytes "greeter") initializing
          ∷ state_after_init running
          ∷ releasing (bytes "greeter")
          ∷ after_destroying (bytes "greeter") destroyed
          ∷ state_after_destroy destroyed
          ∷ [])
unfolding main_lines told apply_all config_of new_config
main_lines_runs = (_, refl, refl)
