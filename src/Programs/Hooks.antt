-- ===== src/Programs/Hooks.antt =====
-- examples/hooks/main.go: named hooks with priorities, and a start that is rolled back.
use appmod.Common.{
  ℕ, zero, suc, Name, name_discrete, bytes, Bool, true, Option, none, some, List, [], ◌∷◌, ◌++◌,
  ◌≡◌, refl, pos,
}
use appmod.Phase.{before_start, after_start, before_destroy}
use appmod.Errors.{Err, foreign, hook_error}
use appmod.Config.{new_config}
use appmod.Base.Defs.{
  name_of, Base, State, running, failed, destroyed, add_hook, add_anonymous, remove_hook, ◌>>=◌,
}
use appmod.Base.Environment.{apply_all, Environment, Ctx, given, View, Call, returned, adds_cleanup}
use appmod.Base.Lifecycle.{At, init, destroy}
use appmod.Base.Options.{new_module, with_config, with_module_logger, with_hook}

-- What is printed.
pub data Line : Type 0 where
  opening_pool loading_config closing_pool : Name → Line
  to_be_removed : Line
  temporary_removed : Bool → Line
  acquired released : Line
  state_is final_state : State → Line

abbrev pub says : Line → List Line → Call × List Line
says l w = (record { effects = []; outcome = returned none }, w ++ l ∷ [])

-- The hooks of `main` are 0 to 3. Those of `failingHookError` are 4, which registers the cleanup 0,
-- and 5, which fails with the error 1.
unfoldable pub call_hook : ℕ → Ctx → View → List Line → Call × List Line
call_hook zero ctx v w = says (opening_pool v.name) w
call_hook (suc zero) ctx v w = says (loading_config v.name) w
call_hook (suc (suc zero)) ctx v w = says to_be_removed w
call_hook (suc (suc (suc zero))) ctx v w = says (closing_pool v.name) w
call_hook (suc (suc (suc (suc zero)))) ctx v w =
    (record { effects = adds_cleanup (some 0) ∷ []; outcome = returned none }, w ++ acquired ∷ [])
call_hook (suc (suc (suc (suc (suc n))))) ctx v w =
    (record { effects = []; outcome = returned (some (foreign 1)) }, w)

abbrev pub printing : Environment
printing = record {
  World = List Line;
  ctx_err = λ c w. none;
  call_hook = call_hook;
  call_cleanup = λ fn ctx w. says released w;
}

unfoldable pub worker : Option (Base × Bool)
unfolding new_module with_config with_module_logger with_hook add_hook remove_hook add_anonymous
worker = do
  b1 ← new_module (
      with_config (some (new_config (bytes "worker") (bytes "v2.0.0")))
      ∷ with_module_logger (some 0)
      ∷ with_hook before_start (record { name = bytes "pool"; priority = pos 20; run = some 0 })
      ∷ with_hook before_start (record { name = bytes "config"; priority = pos 10; run = some 1 })
      ∷ [])
  b2 ←
      add_hook before_start (record { name = bytes "temporary"; priority = pos 30; run = some 2 })
        b1
  (b3, removed) ← remove_hook before_start (bytes "temporary") b2
  b4 ← add_anonymous before_destroy (some 3) b3
  some (b4, removed)

unfoldable pub flaky : Option Base
unfolding new_module with_config add_anonymous
flaky = do
  b1 ← new_module (with_config (some (new_config (bytes "flaky") (bytes "v0.1.0"))) ∷ [])
  b2 ← add_anonymous before_start (some 4) b1
  add_anonymous after_start (some 5) b2

abbrev pub say : (State → Line) → At printing → At printing
say line r = record r { world = r.world ++ line r.base.state ∷ [] }

-- `main` returns where `Init` fails, and `failingHookError` goes on.
abbrev pub goes_on : Ctx → Option Err × At printing → At printing
goes_on ctx (some e, r) = r
goes_on ctx (none, r) = (destroy printing ctx (say state_is r)).1

unfoldable pub main_lines : Ctx → Option (At printing)
unfolding worker init destroy
main_lines ctx = do
  (b, removed) ← worker
  some (
      goes_on ctx (init printing ctx (record { world = temporary_removed removed ∷ []; base = b })))

unfoldable pub failing_hook_error : Ctx → Option (Option Err × At printing)
unfolding flaky init
failing_hook_error ctx = do
  b ← flaky
  let (e, r) = init printing ctx (record { world = []; base = b })
  some (e, say final_state r)

-- The hooks run in the order of their priorities, without the one that was removed.
main_lines_runs :
    (r : At printing) × (main_lines (given 0) ≡ some r)
    × (r.world
        ≡ temporary_removed true
          ∷ loading_config (bytes "worker")
          ∷ opening_pool (bytes "worker")
          ∷ state_is running
          ∷ closing_pool (bytes "worker")
          ∷ [])
    × (r.base.state ≡ destroyed)
unfolding main_lines call_hook name_discrete apply_all name_of new_config
main_lines_runs = (_, refl, refl, refl)

failing_hook_error_runs :
    (r : At printing) × (failing_hook_error (given 0)
      ≡ some (some (hook_error after_start 0 [] (bytes "flaky") (foreign 1)), r))
    × (r.world ≡ acquired ∷ released ∷ final_state failed ∷ [])
unfolding failing_hook_error call_hook apply_all name_of new_config
failing_hook_error_runs = (_, refl, refl)
