-- ===== src/App/Fitting.antt =====
-- The state of a module in the steps of its `Init`.
use appmod.Common.{ℕ, suc, [], ◌∷◌, Option, none, some, Bool, true, false, ◌≡◌, refl, ◌∙◌}
use appmod.Phase.{Phase, before_start, after_start}
use appmod.Errors.{Err, sentinel, already_initialized}
use appmod.Base.Defs.{State, Hook, initializing, running, destroying}
use appmod.Base.Environment.{Ctx}
use appmod.Base.Lifecycle.{
  At, visit_hook, visit_checked, run_hook, can_init, enter, blame, order_hooks,
}
use appmod.Base.Recording.{apply_all-state}
use appmod.Base.Steps.{
  Task, entering, before_starting, after_starting, undoing, returned, or_undo, step,
}
use appmod.App.{Rest}

-- The state of a module while a goroutine is at a point of its `Init`.
abbrev pub Fits : Task → State → Type 0
Fits entering st = Unit
Fits (before_starting i hs) st = st ≡ initializing
Fits (after_starting i hs) st = st ≡ initializing
Fits (undoing e errs fns) st = st ≡ destroying
Fits (returned none) st = st ≡ running
Fits (returned (some e)) st = Unit

module _ (rest : Rest) (ctx : Ctx) where
  open rest use {env}

  visit_checked-state :
      (phase : Phase) (i : ℕ) (h : Hook) (r : At env) (e : Option Err) (fn : Option ℕ)
      → (visit_checked env ctx phase i h r e fn).1.base.state ≡ r.base.state
  unfolding visit_checked run_hook
  visit_checked-state phase i h r (some e) fn = refl
  visit_checked-state phase i h r none none = refl
  visit_checked-state phase i h r none (some fn) =
      go (run_hook env ctx fn r).0 (run_hook env ctx fn r).1 (apply_all-state _ r.base)
    where
      go :
          (o : Option Err) (s : At env)
          → s.base.state ≡ r.base.state
          → (blame env phase i h (o, s)).1.base.state ≡ r.base.state
      go none s e = e
      go (some x) s e = e

  visit_hook-state :
      (phase : Phase) (i : ℕ) (h : Hook) (r : At env)
      → (visit_hook env ctx phase i h r).1.base.state ≡ r.base.state
  unfolding visit_hook
  visit_hook-state phase i h r = visit_checked-state phase i h r _ h.run

  pub step-Fits :
      (t : Task) (r : At env)
      → Fits t r.base.state
      → let s = step env ctx t r in Fits s.0 s.1.base.state
  unfolding step visit_hook
  step-Fits entering r f = go (can_init r.base.state)
    where
      go :
          (b : Bool)
          → let s : Task × At env = elim b [
            | true ↦ (
              before_starting 0 (order_hooks r.base.before_start_hooks),
              enter env initializing r,
            )
            | false ↦ (returned (some (sentinel already_initialized)), r)
          ] in
            Fits s.0 s.1.base.state
      go true = refl
      go false = tt
  step-Fits (before_starting i []) r f = f
  step-Fits (before_starting i (h ∷ hs)) r f =
      go (visit_hook env ctx before_start i h r) (visit_hook-state before_start i h r ∙ f)
    where
      go :
          (v : Option Err × At env)
          → v.1.base.state ≡ initializing
          → let s = or_undo env ctx v (before_starting (suc i) hs) in Fits s.0 s.1.base.state
      go (none, s) e = e
      go (some x, s) e = refl
  step-Fits (after_starting i []) r f = refl
  step-Fits (after_starting i (h ∷ hs)) r f =
      go (visit_hook env ctx after_start i h r) (visit_hook-state after_start i h r ∙ f)
    where
      go :
          (v : Option Err × At env)
          → v.1.base.state ≡ initializing
          → let s = or_undo env ctx v (after_starting (suc i) hs) in Fits s.0 s.1.base.state
      go (none, s) e = e
      go (some x, s) e = refl
  step-Fits (undoing e errs []) r f = tt
  step-Fits (undoing e errs ((i, fn) ∷ fns)) r f = apply_all-state _ r.base ∙ f
  step-Fits (returned res) r f = f
