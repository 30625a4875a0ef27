-- ===== src/Base/Lifecycle.antt =====
-- base.go: phases of hooks, cleanups, `Init` and `Destroy`.
use appmod.Common.{
  ℕ, suc, Option, none, some, List, [], ◌∷◌, ◌++◌, Bool, true, false, leb_ℤ, reverse,
}
use appmod.Common.Sort.{sort_by}
use appmod.Phase.{Phase, before_start, after_start, before_destroy, after_destroy}
use appmod.Errors.{
  Err, sentinel, hook_error, wrapped, cleanup_failed, panicked, hook_panicked, cleanup_panicked,
  Recovered, join, already_initialized, not_initialized,
}
use appmod.Base.Defs.{
  Base, Hook, State, created, initializing, running, destroying, destroyed, failed, config_of,
  name_of, set_state,
}
use appmod.Base.Environment.{
  Environment, Ctx, given, detached, Call, Outcome, returned, panics, View, apply_all,
}

-- By ascending priority; hooks of one priority keep their order.
unfoldable pub order_hooks : List Hook → List Hook
unfolding sort_by
order_hooks = sort_by (λ a b. leb_ℤ a.priority b.priority)

abbrev pub view_of : Base → View
view_of b = record { config = config_of b; name = name_of b; state = b.state }

-- A recovered panic is an error like any other.
abbrev pub outcome_err : Recovered → Outcome → Option Err
outcome_err r (returned e) = e
outcome_err r (panics v) = some (panicked r v)

abbrev pub can_init : State → Bool
can_init created = true
can_init destroyed = true
can_init failed = true
can_init _ = false

abbrev pub is_running : State → Bool
is_running running = true
is_running _ = false

-- The cleanups with their indices, counted from `i`.
abbrev pub number : ℕ → List ℕ → List (ℕ × ℕ)
number i [] = []
number i (fn ∷ fns) = (i, fn) ∷ number (suc i) fns

-- A module among everything else.
pub record Run (W : Type 0) : Type 0 where
  pub world : W
  pub base : Base

module _ (env : Environment) where
  open env use {World, ctx_err, call_hook, call_cleanup}

  abbrev pub At : Type 0
  At = Run World

  -- `ctx.Err()`. A detached context is never canceled.
  abbrev pub context_err : Ctx → World → Option Err
  context_err (given c) w = ctx_err c w
  context_err (detached c) w = none

  unfoldable pub enter : State → At → At
  unfolding set_state
  enter s r = record r { base = set_state s r.base }

  -- What a closure leaves behind.
  abbrev pub settle : Call × World → At → At
  settle (call, w) r = record { world = w; base = apply_all call.effects r.base }

  unfoldable pub run_hook : Ctx → ℕ → At → Option Err × At
  run_hook ctx fn r =
      let done = call_hook fn ctx (view_of r.base) r.world in
      (outcome_err hook_panicked done.0.outcome, settle done r)

  abbrev pub blame : Phase → ℕ → Hook → Option Err × At → Option Err × At
  blame phase i h (none, r) = (none, r)
  blame phase i h (some e, r) = (some (hook_error phase i h.name (name_of r.base) e), r)

  -- One round of the loop of `runPhase`, given what the context answers and the hook's function.
  unfoldable pub visit_checked :
      Ctx → Phase → ℕ → Hook → At → Option Err → Option ℕ → Option Err × At
  unfolding run_hook
  visit_checked ctx phase i h r (some e) run = (some e, r)
  visit_checked ctx phase i h r none none = (none, r)
  visit_checked ctx phase i h r none (some fn) = blame phase i h (run_hook ctx fn r)

  unfoldable pub visit_hook : Ctx → Phase → ℕ → Hook → At → Option Err × At
  unfolding visit_checked
  visit_hook ctx phase i h r = visit_checked ctx phase i h r (context_err ctx r.world) h.run

  -- The rest of a computation, unless there was an error.
  abbrev pub and_then : Option Err × At → (At → Option Err × At) → Option Err × At
  and_then (some e, r) k = (some e, r)
  and_then (none, r) k = k r

  unfoldable pub phase_loop : Ctx → Phase → ℕ → List Hook → At → Option Err × At
  unfolding visit_hook
  phase_loop ctx phase i [] r = (none, r)
  phase_loop ctx phase i (h ∷ hs) r =
      and_then (visit_hook ctx phase i h r) (phase_loop ctx phase (suc i) hs)

  unfoldable pub run_phase : Ctx → Phase → List Hook → At → Option Err × At
  unfolding phase_loop order_hooks
  run_phase ctx phase hooks r = phase_loop ctx phase 0 (order_hooks hooks) r

  unfoldable pub run_cleanup : Ctx → ℕ → At → Option Err × At
  run_cleanup ctx fn r =
      let done = call_cleanup fn ctx r.world in
      (outcome_err cleanup_panicked done.0.outcome, settle done r)

  -- One more error, if there is one.
  abbrev pub note_cleanup : At → ℕ → Option Err → List Err
  note_cleanup r i none = []
  note_cleanup r i (some e) = wrapped (cleanup_failed (name_of r.base) i) e ∷ []

  -- The loop of `runCleanups` over the cleanups with their indices, the last one first.
  unfoldable pub cleanup_loop : Ctx → List (ℕ × ℕ) → At → List Err × At
  unfolding run_cleanup
  cleanup_loop ctx [] r = ([], r)
  cleanup_loop ctx ((i, fn) ∷ fns) r =
      let (res, r') = run_cleanup ctx fn r in
      let (errs, r'') = cleanup_loop ctx fns r' in (note_cleanup r' i res ++ errs, r'')

  unfoldable pub run_cleanups : Ctx → At → List Err × At
  unfolding cleanup_loop
  run_cleanups ctx r =
      cleanup_loop ctx (reverse (number 0 r.base.cleanups))
        (record r { base = record (r.base) { cleanups = [] } })

  unfoldable pub rollback : Ctx → At → Option Err × At
  unfolding run_cleanups
  rollback ctx r = let (errs, r') = run_cleanups ctx r in (join errs, r')

  abbrev pub join_cause : Err → Option Err → Err
  join_cause cause none = cause
  join_cause cause (some e) = elim (join (cause ∷ e ∷ [])) [ none ↦ cause | some j ↦ j ]

  unfoldable pub fail_init : Ctx → Err → At → Option Err × At
  unfolding enter rollback
  fail_init ctx cause r =
      let (res, r') = rollback ctx (enter destroying r) in
      (some (join_cause cause res), enter failed r')

  -- An error of a start phase rolls the module back.
  unfoldable pub or_fail_init : Ctx → Option Err × At → (At → Option Err × At) → Option Err × At
  unfolding fail_init
  or_fail_init ctx (some e, r) k = fail_init ctx e r
  or_fail_init ctx (none, r) k = k r

  abbrev pub publish_running : At → Option Err × At
  unfolding enter
  publish_running r = (none, enter running r)

  -- `Init` behind its BeforeStart hooks.
  unfoldable pub init_after : Ctx → At → Option Err × At
  unfolding enter run_phase or_fail_init
  init_after ctx r =
      or_fail_init ctx (run_phase ctx after_start r.base.after_start_hooks r) publish_running

  -- `Init` behind its guard.
  unfoldable pub init_from : Ctx → At → Option Err × At
  unfolding init_after
  init_from ctx r =
      or_fail_init ctx (run_phase ctx before_start r.base.before_start_hooks (enter initializing r))
        (init_after ctx)

  unfoldable pub init : Ctx → At → Option Err × At
  unfolding init_from
  init ctx r = elim (can_init r.base.state) [
    | true ↦ init_from ctx r
    | false ↦ (some (sentinel already_initialized), r)
  ]

  abbrev pub some_err : Option Err → List Err
  some_err none = []
  some_err (some e) = e ∷ []

  -- The second half of `Destroy`, after the BeforeDestroy hooks.
  unfoldable pub destroy_after : Ctx → At → Option Err × At
  unfolding enter run_phase run_cleanups
  destroy_after ctx r =
      let (errs, r1) = run_cleanups ctx r in
      let r2 = enter destroyed r1 in
      let (res, r3) = run_phase ctx after_destroy r2.base.after_destroy_hooks r2 in
      (join (errs ++ some_err res), r3)

  -- An error of the BeforeDestroy hooks puts the module back into Running.
  unfoldable pub or_keep_running : Option Err × At → (At → Option Err × At) → Option Err × At
  unfolding enter
  or_keep_running (some e, r) k = (some e, enter running r)
  or_keep_running (none, r) k = k r

  unfoldable pub destroy_from : Ctx → At → Option Err × At
  unfolding destroy_after or_keep_running
  destroy_from ctx r =
      or_keep_running
        (run_phase ctx before_destroy r.base.before_destroy_hooks (enter destroying r))
        (destroy_after ctx)

  unfoldable pub destroy : Ctx → At → Option Err × At
  unfolding destroy_from
  destroy ctx r = elim (is_running r.base.state) [
    | true ↦ destroy_from ctx r
    | false ↦ (some (sentinel not_initialized), r)
  ]
