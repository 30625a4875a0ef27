-- ===== src/Base/Willing.antt =====
-- Modules whose hooks never fail, under contexts that are never done.
use appmod.Common.{ℕ, suc, Option, none, some, List, [], ◌∷◌, true, ◌≡◌, refl}
use appmod.Phase.{Phase, before_start, after_start, before_destroy, after_destroy}
use appmod.Errors.{Err}
use appmod.Base.Defs.{Hook, initializing, destroying, destroyed}
use appmod.Base.Environment.{Environment, Ctx, given, detached, View, returned}
use appmod.Base.Lifecycle.{
  At, can_init, is_running, enter, context_err, visit_checked, visit_hook, run_hook, phase_loop,
  and_then, order_hooks, run_phase, init, init_from, init_after, or_fail_init, destroy,
  destroy_from, destroy_after, or_keep_running, run_cleanups,
}
use appmod.Base.Outcomes.{run_phase-state}

pub record IsWilling (env : Environment) : Type 0 where
  pub open_ended : (c : ℕ) (w : env.World) → env.ctx_err c w ≡ none
  pub hook :
      (fn : ℕ) (ctx : Ctx) (v : View) (w : env.World)
      → (env.call_hook fn ctx v w).0.outcome ≡ returned none

module _ (env : Environment) (willing : IsWilling env) (ctx : Ctx) where
  pub context_err-none : (c : Ctx) (w : env.World) → context_err env c w ≡ none
  context_err-none (given c) w = willing.open_ended c w
  context_err-none (detached c) w = refl

  visit_checked-none :
      (phase : Phase) (i : ℕ) (h : Hook) (r : At env) (fn : Option ℕ)
      → (visit_checked env ctx phase i h r none fn).0 ≡ none
  unfolding visit_checked run_hook
  visit_checked-none phase i h r none = refl
  visit_checked-none phase i h r (some fn) = rw (willing.hook fn ctx _ r.world) refl

  then-none :
      (v : Option Err × At env) (k : At env → Option Err × At env)
      → v.0 ≡ none
      → ((r : At env) → (k r).0 ≡ none)
      → (and_then env v k).0 ≡ none
  then-none (none, r) k e h = h r
  then-none (some x, r) k e h = cc

  phase_loop-none :
      (phase : Phase) (i : ℕ) (hs : List Hook) (r : At env)
      → (phase_loop env ctx phase i hs r).0 ≡ none
  unfolding phase_loop visit_hook
  phase_loop-none phase i [] r = refl
  phase_loop-none phase i (h ∷ hs) r = rw (context_err-none ctx r.world) (
      then-none (visit_checked env ctx phase i h r none h.run) _
        (visit_checked-none phase i h r h.run) (phase_loop-none phase (suc i) hs))

  run_phase-none :
      (phase : Phase) (hooks : List Hook) (r : At env) → (run_phase env ctx phase hooks r).0 ≡ none
  unfolding run_phase
  run_phase-none phase hooks r = phase_loop-none phase 0 (order_hooks hooks) r

  or_fail_init-none :
      (v : Option Err × At env) (k : At env → Option Err × At env)
      → v.0 ≡ none
      → ((r : At env) → (k r).0 ≡ none)
      → (or_fail_init env ctx v k).0 ≡ none
  unfolding or_fail_init
  or_fail_init-none (none, r) k e h = h r
  or_fail_init-none (some x, r) k e h = cc

  -- Such a module comes up,
  pub init-none : (r : At env) → can_init r.base.state ≡ true → (init env ctx r).0 ≡ none
  unfolding init init_from init_after
  init-none r c =
      rw (c, init)
        (or_fail_init-none
          (run_phase env ctx before_start r.base.before_start_hooks (enter env initializing r))
          (init_after env ctx)
          (run_phase-none before_start r.base.before_start_hooks (enter env initializing r))
          (λ s.
            or_fail_init-none (run_phase env ctx after_start s.base.after_start_hooks s) _
              (run_phase-none after_start s.base.after_start_hooks s) (λ t. refl)))

  or_keep_running-destroyed :
      (v : Option Err × At env)
      → v.0 ≡ none
      → (or_keep_running env v (destroy_after env ctx)).1.base.state ≡ destroyed
  unfolding or_keep_running destroy_after enter
  or_keep_running-destroyed (none, r) e =
      let r2 = enter env destroyed (run_cleanups env ctx r).1 in
      run_phase-state env ctx after_destroy r2.base.after_destroy_hooks r2
  or_keep_running-destroyed (some x, r) e = cc

  -- and goes down.
  pub destroy-destroyed :
      (r : At env) → is_running r.base.state ≡ true → (destroy env ctx r).1.base.state ≡ destroyed
  unfolding destroy destroy_from
  destroy-destroyed r c =
      rw (c, destroy)
        (or_keep_running-destroyed
          (run_phase env ctx before_destroy r.base.before_destroy_hooks (enter env destroying r))
          (run_phase-none before_destroy r.base.before_destroy_hooks (enter env destroying r)))
