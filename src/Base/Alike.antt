-- ===== src/Base/Alike.antt =====
-- The steps of `Init`, with nothing between them, are what `Init` does.
use appmod.Common.{
  ℕ, suc, Option, none, some, List, [], ◌∷◌, ◌++◌, ◌≡◌, refl, sym, Bool-cases, inl, inr,
  append_assoc, append-nil, reverse, subst,
}
use appmod.Phase.{before_start, after_start}
use appmod.Errors.{Err, join}
use appmod.Base.Defs.{Hook, initializing, running, failed}
use appmod.Base.Environment.{Environment, Ctx}
use appmod.Base.Lifecycle.{
  At, number, can_init, enter, order_hooks, visit_hook, and_then, phase_loop, run_phase,
  run_cleanup, cleanup_loop, run_cleanups, rollback, fail_init, or_fail_init, publish_running,
  init_after, init_from, init, note_cleanup, join_cause,
}
use appmod.Base.Steps.{
  Task, entering, before_starting, after_starting, undoing, returned, undo, or_undo, step, steps,
}

module _ (env : Environment) (ctx : Ctx) where
  -- Some steps lead from one point to another.
  pub data Leads : Task × At env → Task × At env → Type 0 where
    here : (s : Task × At env) → Leads s s
    one_more : (s t : Task × At env) → Leads (step env ctx s.0 s.1) t → Leads s t

  then : (s t u : Task × At env) → Leads s t → Leads t u → Leads s u
  then s t u (here x) l = l
  then s t u (one_more x y k) l = one_more x u (then (step env ctx x.0 x.1) y u k l)

  -- What is behind the rollback.
  undoing-Leads :
      (e : Err) (errs : List Err) (fns : List (ℕ × ℕ)) (r : At env)
      → let v = cleanup_loop env ctx fns r in
        Leads
          (undoing e errs fns, r)
          (returned (some (join_cause env e (join (errs ++ v.0)))), enter env failed v.1)
  unfolding step cleanup_loop
  undoing-Leads e errs [] r = one_more _ _ (
      subst
        (λ l.
          Leads (returned (some (join_cause env e (join errs))), enter env failed r)
            (returned (some (join_cause env e (join l))), enter env failed r))
        (sym (append-nil errs)) (here _))
  undoing-Leads e errs ((i, fn) ∷ fns) r =
      let (res, r1) = run_cleanup env ctx fn r in
      let v = cleanup_loop env ctx fns r1 in
      one_more _ _ (
        subst
          (λ l.
            Leads (undoing e (errs ++ note_cleanup env r1 i res) fns, r1)
              (returned (some (join_cause env e (join l))), enter env failed v.1))
          (append_assoc errs (note_cleanup env r1 i res) v.0)
          (undoing-Leads e (errs ++ note_cleanup env r1 i res) fns r1))

  -- Behind a call of `Init`.
  abbrev result : Option Err × At env → Task × At env
  result (res, r) = (returned res, r)

  undo-Leads : (e : Err) (r : At env) → Leads (undo env ctx e r) (result (fail_init env ctx e r))
  unfolding fail_init rollback run_cleanups enter
  undo-Leads e r = undoing-Leads e [] (reverse (number 0 r.base.cleanups)) _

  -- Where the hooks of a phase lead to.
  abbrev starts_after : Option Err × At env → Task × At env
  starts_after (none, r) = (after_starting 0 (order_hooks r.base.after_start_hooks), r)
  starts_after (some e, r) = undo env ctx e r

  abbrev runs_then : Option Err × At env → Task × At env
  runs_then (none, r) = (returned none, enter env running r)
  runs_then (some e, r) = undo env ctx e r

  before-Leads :
      (i : ℕ) (hs : List Hook) (r : At env)
      → Leads (before_starting i hs, r) (starts_after (phase_loop env ctx before_start i hs r))
  unfolding step phase_loop
  before-Leads i [] r = one_more _ _ (here _)
  before-Leads i (h ∷ hs) r =
      one_more _ _ (go (before-Leads (suc i) hs) (visit_hook env ctx before_start i h r))
    where
      go :
          ((s : At env)
            → Leads
                (before_starting (suc i) hs, s)
                (starts_after (phase_loop env ctx before_start (suc i) hs s)))
          → (v : Option Err × At env)
          → Leads
              (or_undo env ctx v (before_starting (suc i) hs))
              (starts_after (and_then env v (phase_loop env ctx before_start (suc i) hs)))
      go rest (none, s) = rest s
      go rest (some e, s) = here _

  after-Leads :
      (i : ℕ) (hs : List Hook) (r : At env)
      → Leads (after_starting i hs, r) (runs_then (phase_loop env ctx after_start i hs r))
  unfolding step phase_loop
  after-Leads i [] r = one_more _ _ (here _)
  after-Leads i (h ∷ hs) r =
      one_more _ _ (go (after-Leads (suc i) hs) (visit_hook env ctx after_start i h r))
    where
      go :
          ((s : At env)
            → Leads
                (after_starting (suc i) hs, s)
                (runs_then (phase_loop env ctx after_start (suc i) hs s)))
          → (v : Option Err × At env)
          → Leads
              (or_undo env ctx v (after_starting (suc i) hs))
              (runs_then (and_then env v (phase_loop env ctx after_start (suc i) hs)))
      go rest (none, s) = rest s
      go rest (some e, s) = here _

  behind_after :
      (v : Option Err × At env)
      → Leads (runs_then v) (result (or_fail_init env ctx v (publish_running env)))
  unfolding or_fail_init
  behind_after (none, r) = here _
  behind_after (some e, r) = undo-Leads e r

  behind_before :
      (v : Option Err × At env)
      → Leads (starts_after v) (result (or_fail_init env ctx v (init_after env ctx)))
  unfolding or_fail_init init_after run_phase
  behind_before (some e, r) = undo-Leads e r
  behind_before (none, r) =
      then _ _ _ (after-Leads 0 (order_hooks r.base.after_start_hooks) r)
        (behind_after (run_phase env ctx after_start r.base.after_start_hooks r))

  init-Leads : (r : At env) → Leads (entering, r) (result (init env ctx r))
  unfolding step init init_from run_phase
  init-Leads r = elim (Bool-cases (can_init r.base.state)) [
    | inr e ↦ one_more _ _ (rw (e, step, init) (here _))
    | inl e ↦ one_more _ _ (
        rw (e, step, init)
          (then _ _ _
            (before-Leads 0 (order_hooks r.base.before_start_hooks) (enter env initializing r))
            (behind_before (
              run_phase env ctx before_start r.base.before_start_hooks
                (enter env initializing r)))))
  ]

  leads-steps : (s t : Task × At env) → Leads s t → (n : ℕ) × (steps env ctx n s ≡ t)
  leads-steps s t (here x) = (0, refl)
  leads-steps s t (one_more x y l) = let (n, e) = leads-steps _ y l in (suc n, e)

  -- Some number of steps, with nothing between them, bring `Init` to its end, with the result of
  -- `Init`, the module and the world that it leaves, whatever the hooks and cleanups do.
  pub steps-init :
      (r : At env)
      → (n : ℕ) × (steps env ctx n (entering, r)
          ≡ (returned (init env ctx r).0, (init env ctx r).1))
  steps-init r = leads-steps (entering, r) (result (init env ctx r)) (init-Leads r)

  -- From every point of `Init` its end is near.
  pub ends-Leads :
      (t : Task) (r : At env) → (v : Option Err × At env) × Leads (t, r) (returned v.0, v.1)
  ends-Leads entering r = (init env ctx r, init-Leads r)
  ends-Leads (before_starting i hs) r =
      (_, then _ _ _ (before-Leads i hs r) (behind_before (phase_loop env ctx before_start i hs r)))
  ends-Leads (after_starting i hs) r =
      (_, then _ _ _ (after-Leads i hs r) (behind_after (phase_loop env ctx after_start i hs r)))
  ends-Leads (undoing e errs fns) r = ((_, _), undoing-Leads e errs fns r)
  ends-Leads (returned res) r = ((res, r), here _)
