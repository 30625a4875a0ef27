-- ===== src/Manager/Running.antt =====
-- `Run`, `Shutdown` and `ExitCode`, over go-shutdown.
use appmod.Common.{ℕ, Name, List, [], ◌∷◌, Option, none, some, Bool, true, false}
use appmod.Errors.{Err, wrapped, modules_still_running, shutdown_timeout, is_err}
use appmod.Base.Environment.{Ctx}
use appmod.Manager.Defs.{Manager, begin_run}
use appmod.Manager.Modules.{Modules}
use appmod.Manager.Teardown.{At, announced, stop_each, stop}
use appmod.Manager.Startup.{start}

-- The error with the names of the modules, if there are any.
abbrev pub name_remaining : Err → List Name → Err
name_remaining e [] = e
name_remaining e (x ∷ xs) = wrapped (modules_still_running (x ∷ xs)) e

abbrev pub annotate : Bool → Err → List Name → Err
annotate false e remaining = e
annotate true e remaining = name_remaining e remaining

-- `describeTimeout`, given `m.started`.
unfoldable pub describe_timeout : Option Err → List Name → Option Err
unfolding is_err
describe_timeout none started = none
describe_timeout (some e) started = some (annotate (is_err e shutdown_timeout) e started)

module _ (mods : Modules) where
  open mods use {World, await_shutdown, teardown_ctx, wait_result, end_shutdown, sh_exit_code}

  -- `m.sh.Wait` with the one hook `Stop`, where it returns when `Stop` has, and what `Run` makes of its
  -- error.
  unfoldable pub wait_and_stop : Ctx → At mods → Option Err × At mods
  unfolding stop describe_timeout
  wait_and_stop ctx s =
      let w = await_shutdown ctx s.world in
      let (res, s') = stop mods (teardown_ctx ctx w) (record s { world = w }) in
      (describe_timeout (wait_result res s'.world) s'.manager.started, s')

  -- The same where `Wait` returns the error `e` while `Stop` hangs: the goroutines of the modules
  -- `ended` have ended by then, and others of the teardown have not.
  unfoldable pub wait_timed_out : Ctx → Err → List Name → At mods → Option Err × At mods
  unfolding stop_each describe_timeout
  wait_timed_out ctx e ended s =
      let w = await_shutdown ctx s.world in
      let (errs, s') =
        stop_each mods (teardown_ctx ctx w) ended (announced mods (record s { world = w })) in
      (describe_timeout (some e) s'.manager.started, s')

  abbrev pub or_wait : Ctx → Option Err × At mods → Option Err × At mods
  or_wait ctx (some e, s) = (some e, s)
  or_wait ctx (none, s) = wait_and_stop ctx s

  abbrev pub run_claimed : Ctx → World → Option Err × Manager → Option Err × At mods
  run_claimed ctx w (some e, m) = (some e, record { world = w; manager = m })
  run_claimed ctx w (none, m) = or_wait ctx (start mods ctx (record { world = w; manager = m }))

  unfoldable pub run : Ctx → At mods → Option Err × At mods
  unfolding begin_run start wait_and_stop
  run ctx s = run_claimed ctx s.world (begin_run s.manager)

  -- `Shutdown`.
  unfoldable pub trigger_shutdown : At mods → At mods
  trigger_shutdown s = record s { world = end_shutdown s.world }

  unfoldable pub exit_code : At mods → ℕ
  exit_code s = sh_exit_code s.world
