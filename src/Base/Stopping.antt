-- ===== src/Base/Stopping.antt =====
-- `Destroy`: its guard, what it runs, and the state that it leaves.
use appmod.Common.{Option, none, some, List, [], ◌++◌, ◌≡◌, reverse, true, length}
use appmod.Phase.{before_destroy, after_destroy}
use appmod.Errors.{Err, Sentinel, join, any_is, is_err?}
use appmod.Base.Defs.{Hook, running, destroying, destroyed}
use appmod.Base.Environment.{Environment, Ctx}
use appmod.Base.Lifecycle.{At, run_phase, order_hooks, run_cleanups, enter, some_err}
use appmod.Base.Recording.{recording, log_of, hooks_ran, cleanups_ran}
use appmod.Base.Passing.{after, Passed, registered}
use appmod.Base.Phases.{Blamed, InPhase, Ran}

module _ (env : Environment) (ctx : Ctx) where
  abbrev Logs : Type 0
  Logs = At (recording env)

  -- A module behind its BeforeDestroy hooks, and behind its cleanups.
  abbrev pub ended : Logs → Option Err × Logs
  ended r =
      run_phase (recording env) ctx before_destroy r.base.before_destroy_hooks
        (enter (recording env) destroying r)

  abbrev pub cleaned_up : Logs → List Err × Logs
  cleaned_up r = run_cleanups (recording env) ctx (ended r).1

  -- The module when its BeforeDestroy hooks begin to run, and behind the cleanups, when its
  -- AfterDestroy hooks do.
  abbrev pub leaving : Logs → Logs
  leaving r = enter (recording env) destroying r

  abbrev pub gone : Logs → Logs
  gone r = enter (recording env) destroyed (cleaned_up r).1

  abbrev pub before : Logs → List Hook
  before r = order_hooks r.base.before_destroy_hooks

  abbrev pub behind : Logs → List Hook
  behind r = order_hooks (gone r).base.after_destroy_hooks

  -- What `Destroy` left of a running module: still running, with some of the BeforeDestroy hooks
  -- called, no cleanup, and the error that stopped these hooks; or destroyed, where each of these
  -- hooks returned nil, then all cleanups ran, the last one first (those that the module had, and
  -- those that these hooks registered), and then the phase of the AfterDestroy hooks that the module
  -- had then. It returns the errors of the cleanups and that of this phase, joined.
  pub data Stopped (r : Logs) (res : Option Err) (r' : Logs) : Type 0 where
    kept :
        (ran rest : List Hook) (e : Err)
        → before r ≡ ran ++ rest
        → Blamed env ctx (leaving r) ran (InPhase env ctx before_destroy (length (before r))) e
        → res ≡ some e
        → r' ≡ enter (recording env) running (after (recording env) ctx ran (leaving r))
        → r'.base.state ≡ running
        → log_of r' ≡ log_of r ++ hooks_ran destroying ran
        → Stopped r res r'
    down :
        (last : Option Err) (w : Ran env ctx after_destroy 0 (behind r) (gone r) last r')
        → Passed (recording env) ctx (before r) (leaving r)
        → res ≡ join ((cleaned_up r).0 ++ some_err (recording env) last)
        → (res ≡ none → ((cleaned_up r).0 ≡ []) × Passed (recording env) ctx (behind r) (gone r))
        → ((t : Sentinel) → any_is (cleaned_up r).0 t ≡ true → is_err? res t ≡ true)
        → r'.base.state ≡ destroyed
        → log_of r'
          ≡ ((log_of r ++ hooks_ran destroying (before r))
              ++ cleanups_ran (
                  reverse
                    (r.base.cleanups ++ registered (recording env) ctx (before r) (leaving r))))
            ++ hooks_ran destroyed w.ran
        → Stopped r res r'
