-- ===== src/Base/Starting.antt =====
-- `Init`: its guard, what it runs, and the state and error that it leaves.
use appmod.Common.{
  ℕ, ◌+◌, ◌<◌, Option, none, some, List, [], ◌++◌, ◌≡◌, refl, sym, ap, ◌∙◌, ◌⊎◌, inl, inr, reverse,
  append_assoc, true, false, arith, ap₂, Bool-cases, subst, length,
}
use appmod.Phase.{Phase, before_start, after_start}
use appmod.Errors.{Err, Sentinel, sentinel, already_initialized, is_err, is_err?}
use appmod.Base.Defs.{Hook, initializing, running, failed}
use appmod.Base.Environment.{Environment, Ctx}
use appmod.Base.Lifecycle.{
  At, can_init, run_phase, order_hooks, fail_init, or_fail_init, init_after, init_from, init, enter,
  publish_running,
}
use appmod.Base.Recording.{recording, log_of, hooks_ran, cleanups_ran}
use appmod.Base.Passing.{
  after, Passed, registered, after-append, Passed-append, after-cleanups, after-log,
}
use appmod.Base.Phases.{Ran, Ran-all, Ran-Blamed, Blamed, Blamed-behind, run_phase-Ran}
use appmod.Base.Cleanups.{fail_init-log, fail_init-state, fail_init-is_err}

module _ (env : Environment) (ctx : Ctx) where
  abbrev Logs : Type 0
  Logs = At (recording env)

  -- A module behind its BeforeStart hooks, and the AfterStart hooks that it has then.
  abbrev pub begun : Logs → Option Err × Logs
  begun r =
      run_phase (recording env) ctx before_start r.base.before_start_hooks
        (enter (recording env) initializing r)

  abbrev pub start_hooks : Logs → List Hook
  start_hooks r =
      order_hooks r.base.before_start_hooks ++ order_hooks (begun r).1.base.after_start_hooks

  -- The module when its hooks begin to run.
  abbrev pub entered : Logs → Logs
  entered r = enter (recording env) initializing r

  -- A position among the hooks of a start: those of BeforeStart, and then those of AfterStart.
  abbrev pub InStart : ℕ → Phase → ℕ → ℕ → Type 0
  InStart n p i k = ((p ≡ before_start) × (i ≡ k) × (k < n)) ⊎ ((p ≡ after_start) × (n + i ≡ k))

  -- What `Init` left of a module that it could start. It is running, and what was called is every
  -- BeforeStart hook and then every AfterStart hook, each of which returned nil before the context
  -- was done; nothing else happened to it. Or it failed with an error, which is also the one that
  -- stopped these hooks; what was called is a prefix of them, and then all cleanups, the last one
  -- first: those that the module had, and behind them those that the hooks called registered.
  pub data Started (r : Logs) (res : Option Err) (r' : Logs) : Type 0 where
    up :
        res ≡ none
        → Passed (recording env) ctx (start_hooks r) (entered r)
        → r' ≡ enter (recording env) running (after (recording env) ctx (start_hooks r) (entered r))
        → r'.base.state ≡ running
        → r'.base.cleanups
          ≡ r.base.cleanups ++ registered (recording env) ctx (start_hooks r) (entered r)
        → log_of r' ≡ log_of r ++ hooks_ran initializing (start_hooks r)
        → Started r res r'
    down :
        (ran rest : List Hook) (cause : Err)
        → start_hooks r ≡ ran ++ rest
        → Blamed env ctx
            (entered r)
            ran
            (InStart (length (order_hooks r.base.before_start_hooks)))
            cause
        → ¬ (res ≡ none)
        → ((t : Sentinel) → is_err cause t ≡ true → is_err? res t ≡ true)
        → r'.base.state ≡ failed
        → log_of r'
          ≡ (log_of r ++ hooks_ran initializing ran)
            ++ cleanups_ran
                (reverse (r.base.cleanups ++ registered (recording env) ctx ran (entered r)))
        → Started r res r'

  -- A failure behind the hooks `ran`.
  rolled_back :
      (r r1 : Logs) (ran rest : List Hook) (cause : Err)
      → start_hooks r ≡ ran ++ rest
      → Blamed env ctx
          (entered r)
          ran
          (InStart (length (order_hooks r.base.before_start_hooks)))
          cause
      → r1 ≡ after (recording env) ctx ran (entered r)
      → let w = fail_init (recording env) ctx cause r1 in Started r w.0 w.1
  unfolding enter
  rolled_back r r1 ran rest cause p b o =
      down ran rest cause p b (unfold fail_init in λ e. cc)
        (λ t h. ground (arith, fail_init-is_err env ctx cause r1 t))
        (fail_init-state env ctx cause r1)
        (fail_init-log env ctx cause r1
          ∙ ap₂ (λ l fns. l ++ cleanups_ran (reverse fns))
              (ap log_of o ∙ after-log env ctx ran (entered r))
              (ap (λ (z : Logs). z.base.cleanups) o
                ∙ after-cleanups (recording env) ctx ran (entered r)))

  -- Every hook returned nil.
  came_up :
      (r r2 : Logs)
      → Passed (recording env) ctx (start_hooks r) (entered r)
      → r2 ≡ after (recording env) ctx (start_hooks r) (entered r)
      → let w = publish_running (recording env) r2 in Started r w.0 w.1
  unfolding enter
  came_up r r2 p o =
      up refl p (ap (enter (recording env) running) o) refl
        (ap (λ (z : Logs). z.base.cleanups) o
          ∙ after-cleanups (recording env) ctx (start_hooks r) (entered r))
        (ap log_of o ∙ after-log env ctx (start_hooks r) (entered r))

  init_after-Started :
      (r r1 : Logs)
      → (begun r).1 ≡ r1
      → Passed (recording env) ctx (order_hooks r.base.before_start_hooks) (entered r)
      → r1 ≡ after (recording env) ctx (order_hooks r.base.before_start_hooks) (entered r)
      → let w = init_after (recording env) ctx r1 in Started r w.0 w.1
  unfolding init_after or_fail_init
  init_after-Started r r1 b p o =
      go (run_phase (recording env) ctx after_start r1.base.after_start_hooks r1)
        (run_phase-Ran env ctx after_start r1.base.after_start_hooks r1)
    where
      before : List Hook
      before = order_hooks r.base.before_start_hooks

      hooks : start_hooks r ≡ before ++ order_hooks r1.base.after_start_hooks
      hooks = ap (λ (x : Logs). before ++ order_hooks x.base.after_start_hooks) b

      chained :
          (ys : List Hook)
          → after (recording env) ctx ys r1 ≡ after (recording env) ctx (before ++ ys) (entered r)
      chained ys =
          ap (after (recording env) ctx ys) o
          ∙ sym (after-append (recording env) ctx before ys (entered r))

      go :
          (v : Option Err × Logs)
          → Ran env ctx after_start 0 (order_hooks r1.base.after_start_hooks) r1 v.0 v.1
          → let w = or_fail_init (recording env) ctx v (publish_running (recording env)) in
            Started r w.0 w.1
      go (none, r2) w =
          let (e, e', q, z) = Ran-all env ctx after_start w in
          came_up r r2
            (subst (λ l. Passed (recording env) ctx l (entered r)) (sym hooks)
              (Passed-append (recording env) ctx before _ (entered r) p
                (subst (Passed (recording env) ctx _) o q)))
            (z
              ∙ chained (order_hooks r1.base.after_start_hooks)
              ∙ ap (λ l. after (recording env) ctx l (entered r)) (sym hooks))
      go (some e, r2) w =
          rolled_back r r2 (before ++ w.ran) w.rest e
            (hooks ∙ ap (◌++◌ before) w.split ∙ sym (append_assoc before w.ran w.rest))
            (Blamed-behind env ctx before p o
              (λ ph i k (u, j, l). inr (u, ap (λ n. length before + n) j))
              (Ran-Blamed env ctx after_start w))
            (w.behind ∙ chained w.ran)

  init_from-Started : (r : Logs) → let w = init_from (recording env) ctx r in Started r w.0 w.1
  unfolding init_from or_fail_init order_hooks
  init_from-Started r =
      go (begun r) refl (run_phase-Ran env ctx before_start r.base.before_start_hooks (entered r))
    where
      go :
          (v : Option Err × Logs)
          → begun r ≡ v
          → Ran env ctx before_start 0 (order_hooks r.base.before_start_hooks) (entered r) v.0 v.1
          → let w = or_fail_init (recording env) ctx v (init_after (recording env) ctx) in
            Started r w.0 w.1
      go (none, r1) q w =
          let (e, e', p, z) = Ran-all env ctx before_start w in
          init_after-Started r r1 (ap (λ (x : Option Err × Logs). x.1) q) p z
      go (some e, r1) q w =
          rolled_back r r1 w.ran (w.rest ++ order_hooks (begun r).1.base.after_start_hooks) e
            (ap (λ l. l ++ order_hooks (begun r).1.base.after_start_hooks) w.split
              ∙ append_assoc w.ran w.rest _)
            (Blamed-behind env ctx [] tt refl
              (λ ph i k (u, j, l). inl (u, omega (arith, j), omega (arith, l)))
              (Ran-Blamed env ctx before_start w))
            w.behind

  -- `Init` refuses a module that is initializing, running or destroying and leaves it as it was.
  -- Any other module ends in one of two ways. It is running, `Init` returned nil, and what was
  -- called, and did everything that happened, is every BeforeStart hook and then every AfterStart
  -- hook, by priority, each of which returned nil and found the context not done. Or it is failed,
  -- and the error includes the error of the context when the hooks before had returned nil, or the
  -- HookError of the first hook that did not; what was called is a prefix of these hooks and then
  -- every cleanup, the last one first: those that the module had, and behind them exactly those
  -- that the hooks called registered.
  pub init-Started :
      (r : Logs)
      → let w = init (recording env) ctx r in
        ((can_init r.base.state ≡ false) × (w.0 ≡ some (sentinel already_initialized)) × (w.1 ≡ r))
        ⊎ ((can_init r.base.state ≡ true) × Started r w.0 w.1)
  unfolding init
  init-Started r = elim (Bool-cases (can_init r.base.state)) [
    | inl e ↦ inr (e, rw (e, init) (init_from-Started r))
    | inr e ↦ inl (e, rw (e, init), rw (e, init))
  ]
