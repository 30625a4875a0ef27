-- ===== src/Base/Alone.antt =====
-- `Init` and `Destroy` as they were modelled without other callers are schedules of one caller.
use appmod.Common.{
  Option, none, some, Bool-cases, inl, inr, ◌≡◌, refl, sym, ap, subst, ◌≢◌, Bool, true, false,
}
use appmod.Errors.{Err}
use appmod.Phase.{before_start, after_start, before_destroy, after_destroy}
use appmod.Base.Defs.{State, initializing, running, destroying, destroyed}
use appmod.Base.Environment.{Environment, Ctx}
use appmod.Base.Lifecycle.{
  At, can_init, is_running, enter, run_phase, run_cleanups, init, init_from, init_after,
  or_fail_init, fail_init, destroy, destroy_from, destroy_after, or_keep_running,
}
use appmod.Base.Outcomes.{run_phase-state}
use appmod.Base.Callers.{
  Position, outside, before_starting, after_starting, rolling_back, before_destroying, cleaning,
  after_destroying, Move,
}

-- One call: a caller moves in, or is refused, and on until it is outside again.
pub data Call (s : State) : State → Position → Type 0 where
  begins : (s1 : State) (p1 : Position) → Move s outside s1 p1 → Call s s1 p1
  goes_on :
      (s1 s2 : State) (p1 p2 : Position)
      → Call s s1 p1
      → p1 ≢ outside
      → Move s1 p1 s2 p2
      → Call s s2 p2

-- A way of telling an inner position from the outside.
abbrev is_outside : Position → Bool
is_outside outside = true
is_outside before_starting = false
is_outside after_starting = false
is_outside rolling_back = false
is_outside before_destroying = false
is_outside cleaning = false
is_outside after_destroying = false

on :
    {s s1 s2 : State} {p1 p2 : Position}
    → Call s s1 p1
    → is_outside p1 ≡ false
    → Move s1 p1 s2 p2
    → Call s s2 p2
on c e m = goes_on _ _ _ _ c (λ q. cc (ap is_outside q, e)) m

module _ (env : Environment) (ctx : Ctx) where
  -- The caller leaves with the module in this state.
  abbrev pub Leaves : State → State → Type 0
  Leaves s s' = Call s s' outside

  rolls_back :
      (s : State) (e : Err) (r : At env)
      → Call s destroying rolling_back
      → Leaves s (fail_init env ctx e r).1.base.state
  unfolding fail_init enter
  rolls_back s e r m = on m refl Move.rolled_back

  init_after-Leaves :
      (s : State) (r : At env)
      → r.base.state ≡ initializing
      → Call s initializing after_starting
      → Leaves s (init_after env ctx r).1.base.state
  unfolding init_after or_fail_init enter
  init_after-Leaves s r q m = go (run_phase env ctx after_start r.base.after_start_hooks r)
    where
      go :
          (v : Option Err × At env)
          → Leaves s (or_fail_init env ctx v (λ t. (none, enter env running t))).1.base.state
      go (some e, t) = rolls_back s e t (on m refl Move.after_start_failed)
      go (none, t) = on m refl Move.after_start_ran

  init-Leaves : (r : At env) → Leaves r.base.state (init env ctx r).1.base.state
  unfolding init init_from or_fail_init enter
  init-Leaves r = elim (Bool-cases (can_init r.base.state)) [
    | inr e ↦ rw (e, init) (begins _ _ (Move.refused_init e))
    | inl e ↦
        rw (e, init)
          (go e
            (run_phase env ctx before_start r.base.before_start_hooks (enter env initializing r))
            (run_phase-state env ctx before_start r.base.before_start_hooks
              (enter env initializing r)))
  ]
    where
      go :
          can_init r.base.state ≡ true
          → (v : Option Err × At env) → v.1.base.state ≡ initializing
          → Leaves r.base.state (or_fail_init env ctx v (init_after env ctx)).1.base.state
      go e (some err, t) q = rolls_back r.base.state err t (
          on (begins initializing before_starting (Move.claims_init e)) refl
            Move.before_start_failed)
      go e (none, t) q =
          init_after-Leaves r.base.state t q (
            on (begins initializing before_starting (Move.claims_init e)) refl
              Move.before_start_ran)

  destroy_after-Leaves :
      (s : State) (r : At env)
      → Call s destroying cleaning
      → Leaves s (destroy_after env ctx r).1.base.state
  unfolding destroy_after enter
  destroy_after-Leaves s r m =
      let r2 = enter env destroyed (run_cleanups env ctx r).1 in
      subst (Leaves s) (sym (run_phase-state env ctx after_destroy r2.base.after_destroy_hooks r2))
        (on (on m refl Move.cleaned) refl Move.after_destroy_ended)

  destroy-Leaves : (r : At env) → Leaves r.base.state (destroy env ctx r).1.base.state
  unfolding destroy destroy_from or_keep_running enter
  destroy-Leaves r = elim (Bool-cases (is_running r.base.state)) [
    | inr e ↦ rw (e, destroy) (begins _ _ (Move.refused_destroy e))
    | inl e ↦
        rw (e, destroy)
          (go e
            (run_phase env ctx before_destroy r.base.before_destroy_hooks (enter env destroying r)))
  ]
    where
      go :
          is_running r.base.state ≡ true
          → (v : Option Err × At env)
          → Leaves r.base.state (or_keep_running env v (destroy_after env ctx)).1.base.state
      go e (some err, t) =
          on (begins destroying before_destroying (Move.claims_destroy e)) refl
            Move.before_destroy_failed
      go e (none, t) = destroy_after-Leaves r.base.state t (
          on (begins destroying before_destroying (Move.claims_destroy e)) refl
            Move.before_destroy_ran)

  -- Where one caller is alone, `Init` and `Destroy` leave the module in a state to which the
  -- moves of that caller lead in a single call.
  pub lifecycle-Leaves :
      (r : At env)
      → Leaves r.base.state (init env ctx r).1.base.state
        × Leaves r.base.state (destroy env ctx r).1.base.state
  lifecycle-Leaves r = (init-Leaves r, destroy-Leaves r)
