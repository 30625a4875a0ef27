-- ===== src/Base/Outcomes.antt =====
-- What `Init` and `Destroy` answer and the state that they leave, in any environment.
use appmod.Common.{Option, none, some, List, true, false, ◌≡◌, refl, ◌∙◌, Bool-cases, inl, inr}
use appmod.Phase.{Phase, before_start, after_start, before_destroy, after_destroy}
use appmod.Errors.{Err, sentinel, already_initialized, not_initialized}
use appmod.Base.Defs.{Hook, initializing, running, destroying, destroyed, failed}
use appmod.Base.Environment.{Environment, Ctx}
use appmod.Base.Lifecycle.{
  At, can_init, is_running, enter, run_phase, or_fail_init, fail_init, publish_running, init_after,
  init_from, init, run_cleanups, or_keep_running, destroy_after, destroy_from, destroy,
}
use appmod.Base.Recording.{apply_all-state}
use appmod.Base.Following.{by_effects}

pub run_phase-state :
    (env : Environment) (ctx : Ctx) (phase : Phase) (hooks : List Hook) (r : At env)
    → (run_phase env ctx phase hooks r).1.base.state ≡ r.base.state
run_phase-state env =
    by_effects env (λ a b. b.state ≡ a.state) (λ b. refl) (λ a b c p q. q ∙ p) apply_all-state

module _ (env : Environment) (ctx : Ctx) where
  -- The three ways in which `Init` ends.
  pub data Inited (r : At env) (res : Option Err) (r' : At env) : Type 0 where
    refused :
        can_init r.base.state ≡ false
        → res ≡ some (sentinel already_initialized)
        → r' ≡ r
        → Inited r res r'
    up : can_init r.base.state ≡ true → res ≡ none → r'.base.state ≡ running → Inited r res r'
    down :
        (e : Err)
        → can_init r.base.state ≡ true
        → res ≡ some e
        → r'.base.state ≡ failed
        → Inited r res r'

  or_fail_init-Inited :
      (r : At env)
      → can_init r.base.state ≡ true
      → (v : Option Err × At env) (k : At env → Option Err × At env)
      → ((s : At env) → Inited r (k s).0 (k s).1)
      → let w = or_fail_init env ctx v k in Inited r w.0 w.1
  unfolding or_fail_init fail_init enter
  or_fail_init-Inited r c (some e, s) k h = down _ c refl refl
  or_fail_init-Inited r c (none, s) k h = h s

  pub init-Inited : (r : At env) → let w = init env ctx r in Inited r w.0 w.1
  unfolding init init_from init_after enter
  init-Inited r = elim (Bool-cases (can_init r.base.state)) [
    | inr e ↦ rw (e, init) (refused e refl refl)
    | inl e ↦
        rw (e, init)
          (or_fail_init-Inited r e
            (run_phase env ctx before_start r.base.before_start_hooks (enter env initializing r))
            (init_after env ctx)
            λ s.
              or_fail_init-Inited r e (run_phase env ctx after_start s.base.after_start_hooks s)
                (publish_running env) (λ s'. up e refl refl))
  ]

  -- The three ways in which `Destroy` ends.
  pub data Destroyed (r : At env) (res : Option Err) (r' : At env) : Type 0 where
    refused :
        is_running r.base.state ≡ false
        → res ≡ some (sentinel not_initialized)
        → r' ≡ r
        → Destroyed r res r'
    kept :
        (e : Err)
        → is_running r.base.state ≡ true
        → res ≡ some e
        → r'.base.state ≡ running
        → Destroyed r res r'
    down : is_running r.base.state ≡ true → r'.base.state ≡ destroyed → Destroyed r res r'

  or_keep_running-Destroyed :
      (r : At env)
      → is_running r.base.state ≡ true
      → (v : Option Err × At env)
      → let w = or_keep_running env v (destroy_after env ctx) in Destroyed r w.0 w.1
  unfolding or_keep_running destroy_after enter
  or_keep_running-Destroyed r c (some e, s) = kept e c refl refl
  or_keep_running-Destroyed r c (none, s) = down c (
      run_phase-state env ctx after_destroy
        (enter env destroyed (run_cleanups env ctx s).1).base.after_destroy_hooks
        (enter env destroyed (run_cleanups env ctx s).1))

  pub destroy-Destroyed : (r : At env) → let w = destroy env ctx r in Destroyed r w.0 w.1
  unfolding destroy destroy_from
  destroy-Destroyed r = elim (Bool-cases (is_running r.base.state)) [
    | inr e ↦ rw (e, destroy) (refused e refl refl)
    | inl e ↦
        rw (e, destroy)
          (or_keep_running-Destroyed r e
            (run_phase env ctx before_destroy r.base.before_destroy_hooks (enter env destroying r)))
  ]
