-- ===== src/Base/Passing.antt =====
-- The hooks of a list, called in turn: what they leave, and which cleanups they registered.
use appmod.Common.{
  ℕ, Option, none, some, List, [], ◌∷◌, ◌++◌, ◌≡◌, refl, sym, ap, ap₂, ◌∙◌, append_assoc,
  append-nil,
}
use appmod.Errors.{Err, panicked, hook_panicked}
use appmod.Base.Defs.{Hook}
use appmod.Base.Environment.{Environment, Ctx, Outcome, returned, panics, apply_all}
use appmod.Base.Lifecycle.{At, run_hook, context_err, view_of, outcome_err}
use appmod.Base.Recording.{recording, log_of, hooks_ran, apply_all-state}
use appmod.Base.Growing.{registers, apply_all-cleanups}

-- What a closure that returned or panicked reports.
abbrev pub answer_of : Outcome → Option Err
answer_of (returned e) = e
answer_of (panics v) = some (panicked hook_panicked v)

module _ (env : Environment) (ctx : Ctx) where
  -- A hook without a function does nothing.
  abbrev pub call_run : Option ℕ → At env → Option Err × At env
  call_run none r = (none, r)
  call_run (some fn) r =
      let (call, w) = env.call_hook fn ctx (view_of r.base) r.world in
      (answer_of call.outcome, record { world = w; base = apply_all call.effects r.base })

  abbrev pub call_one : Hook → At env → Option Err × At env
  call_one h r = call_run h.run r

  pub run_hook-call : (fn : ℕ) (r : At env) → run_hook env ctx fn r ≡ call_run (some fn) r
  unfolding run_hook
  run_hook-call fn r = ap pair (go (env.call_hook fn ctx (view_of r.base) r.world).0.outcome)
    where
      pair : Option Err → Option Err × At env
      pair e =
          let (call, w) = env.call_hook fn ctx (view_of r.base) r.world in
          (e, record { world = w; base = apply_all call.effects r.base })

      go : (o : Outcome) → outcome_err hook_panicked o ≡ answer_of o
      go (returned e) = refl
      go (panics v) = refl

  -- Behind the hooks of a list, whatever each of them returned.
  abbrev pub after : List Hook → At env → At env
  after [] r = r
  after (h ∷ hs) r = after hs (call_one h r).1

  -- Before each of these hooks the context was not done, and each of them returned nil.
  abbrev pub Passed : List Hook → At env → Type 0
  Passed [] r = Unit
  Passed (h ∷ hs) r =
      (context_err env ctx r.world ≡ none) × ((call_one h r).0 ≡ none) × Passed hs (call_one h r).1

  -- The cleanups that a hook gave to `AddCleanup`.
  abbrev registered_run : Option ℕ → At env → List ℕ
  registered_run none r = []
  registered_run (some fn) r = registers (env.call_hook fn ctx (view_of r.base) r.world).0.effects

  abbrev pub registered : List Hook → At env → List ℕ
  registered [] r = []
  registered (h ∷ hs) r = registered_run h.run r ++ registered hs (call_one h r).1

  pub after-append : (xs ys : List Hook) (r : At env) → after (xs ++ ys) r ≡ after ys (after xs r)
  after-append [] ys r = refl
  after-append (x ∷ xs) ys r = after-append xs ys (call_one x r).1

  pub Passed-append :
      (xs ys : List Hook) (r : At env) → Passed xs r → Passed ys (after xs r) → Passed (xs ++ ys) r
  Passed-append [] ys r p q = q
  Passed-append (x ∷ xs) ys r (c, o, p) q = (c, o, Passed-append xs ys (call_one x r).1 p q)

  call_one-cleanups :
      (h : Hook) (r : At env)
      → (call_one h r).1.base.cleanups ≡ r.base.cleanups ++ registered_run h.run r
  call_one-cleanups h r = go h.run
    where
      go : (f : Option ℕ) → (call_run f r).1.base.cleanups ≡ r.base.cleanups ++ registered_run f r
      go none = sym (append-nil _)
      go (some fn) = apply_all-cleanups _ r.base

  -- These are the cleanups behind the hooks, the latest one last.
  pub after-cleanups :
      (hs : List Hook) (r : At env)
      → (after hs r).base.cleanups ≡ r.base.cleanups ++ registered hs r
  after-cleanups [] r = sym (append-nil _)
  after-cleanups (h ∷ hs) r =
      after-cleanups hs (call_one h r).1
      ∙ ap (λ l. l ++ registered hs (call_one h r).1) (call_one-cleanups h r)
      ∙ append_assoc r.base.cleanups _ _

module _ (env : Environment) (ctx : Ctx) where
  call_one-logs :
      (h : Hook) (r : At (recording env))
      → ((call_one (recording env) ctx h r).1.base.state ≡ r.base.state)
        × (log_of (call_one (recording env) ctx h r).1
            ≡ log_of r ++ hooks_ran r.base.state (h ∷ []))
  call_one-logs h r = go h.run
    where
      go :
          (f : Option ℕ)
          → let w = call_run (recording env) ctx f r in
            (w.1.base.state ≡ r.base.state)
            × (log_of w.1 ≡ log_of r ++ hooks_ran r.base.state (record h { run = f } ∷ []))
      go none = (refl, sym (append-nil _))
      go (some fn) = (apply_all-state _ _, refl)

  pub after-state :
      (hs : List Hook) (r : At (recording env))
      → (after (recording env) ctx hs r).base.state ≡ r.base.state
  after-state [] r = refl
  after-state (h ∷ hs) r = after-state hs _ ∙ (call_one-logs h r).0

  -- The hooks with a function ran, in order, each in the state that the first one began in.
  pub after-log :
      (hs : List Hook) (r : At (recording env))
      → log_of (after (recording env) ctx hs r) ≡ log_of r ++ hooks_ran r.base.state hs
  after-log [] r = sym (append-nil _)
  after-log (h ∷ hs) r =
      let (s, l) = call_one-logs h r in
      after-log hs _
      ∙ ap₂ (λ u t. u ++ hooks_ran t hs) l s
      ∙ append_assoc (log_of r) _ _
      ∙ ap (◌++◌ (log_of r)) (go h.run)
    where
      go :
          (f : Option ℕ)
          → hooks_ran r.base.state (record h { run = f } ∷ []) ++ hooks_ran r.base.state hs
            ≡ hooks_ran r.base.state (record h { run = f } ∷ hs)
      go none = refl
      go (some fn) = refl
