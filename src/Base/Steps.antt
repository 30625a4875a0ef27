-- ===== src/Base/Steps.antt =====
-- base.go: `Init` in single steps, between which other goroutines may run.
use appmod.Common.{ℕ, zero, suc, Option, none, some, List, [], ◌∷◌, ◌++◌, reverse, true, false}
use appmod.Phase.{before_start, after_start}
use appmod.Errors.{Err, sentinel, already_initialized, join}
use appmod.Base.Defs.{Hook, initializing, running, destroying, failed}
use appmod.Base.Environment.{Environment, Ctx}
use appmod.Base.Lifecycle.{
  At, number, can_init, enter, order_hooks, visit_hook, run_cleanup, note_cleanup, join_cause,
}

-- Where a goroutine is in `Init`: before its guard, in a phase with the hooks that are left, in the
-- rollback of an error with the cleanups that are left and the errors of the others, or behind it.
pub data Task : Type 0 where
  entering : Task
  before_starting after_starting : (index : ℕ) → List Hook → Task
  undoing : (cause : Err) → List Err → List (ℕ × ℕ) → Task
  returned : Option Err → Task

module _ (env : Environment) (ctx : Ctx) where
  -- The rollback takes the cleanups over.
  abbrev pub undo : Err → At env → Task × At env
  undo e r = (
    undoing e [] (reverse (number 0 r.base.cleanups)),
    enter env destroying (record r { base = record (r.base) { cleanups = [] } }),
  )

  -- A hook was run: the task goes on, or the module is rolled back.
  abbrev pub or_undo : Option Err × At env → Task → Task × At env
  or_undo (none, r) t = (t, r)
  or_undo (some e, r) t = undo e r

  abbrev pub cleaned : Err → List Err → List (ℕ × ℕ) → ℕ → Option Err × At env → Task × At env
  cleaned e errs fns i (res, r) = (undoing e (errs ++ note_cleanup env r i res) fns, r)

  -- One step. It calls one hook or one cleanup, or none.
  unfoldable pub step : Task → At env → Task × At env
  unfolding enter visit_hook run_cleanup order_hooks
  step entering r = elim (can_init r.base.state) [
    | true ↦ (before_starting 0 (order_hooks r.base.before_start_hooks), enter env initializing r)
    | false ↦ (returned (some (sentinel already_initialized)), r)
  ]
  step (before_starting i []) r = (after_starting 0 (order_hooks r.base.after_start_hooks), r)
  step (before_starting i (h ∷ hs)) r =
      or_undo (visit_hook env ctx before_start i h r) (before_starting (suc i) hs)
  step (after_starting i []) r = (returned none, enter env running r)
  step (after_starting i (h ∷ hs)) r =
      or_undo (visit_hook env ctx after_start i h r) (after_starting (suc i) hs)
  step (undoing e errs []) r = (returned (some (join_cause env e (join errs))), enter env failed r)
  step (undoing e errs ((i, fn) ∷ fns)) r = cleaned e errs fns i (run_cleanup env ctx fn r)
  step (returned res) r = (returned res, r)

  abbrev pub steps : ℕ → Task × At env → Task × At env
  steps zero s = s
  steps (suc n) s = steps n (step s.0 s.1)
