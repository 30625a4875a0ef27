-- ===== src/Base/Following.antt =====
-- What hooks may do to their module, for a phase as a whole.
use appmod.Common.{ℕ, suc, Option, none, some, List, [], ◌∷◌}
use appmod.Phase.{Phase}
use appmod.Errors.{Err}
use appmod.Base.Defs.{Base, Hook}
use appmod.Base.Environment.{Environment, Ctx, Effect, apply_all}
use appmod.Base.Lifecycle.{
  At, blame, run_hook, visit_checked, visit_hook, phase_loop, run_phase, and_then, order_hooks,
  context_err,
}

-- A relation between a module and its world before and after, which the call of a hook follows.
pub record Follows (env : Environment) : Type 1 where
  pub R : At env → At env → Type 0
  pub same : (r : At env) → R r r
  pub chain : (a b c : At env) → R a b → R b c → R a c
  pub hook : (ctx : Ctx) (fn : ℕ) (r : At env) → R r (run_hook env ctx fn r).1

module _ (env : Environment) (f : Follows env) (ctx : Ctx) (phase : Phase) where
  open f use {R}

  blame-R :
      (i : ℕ) (h : Hook) (a : At env) (v : Option Err × At env)
      → R a v.1
      → R a (blame env phase i h v).1
  blame-R i h a (none, r) k = k
  blame-R i h a (some e, r) k = k

  visit_checked-R :
      (i : ℕ) (h : Hook) (r : At env) (c : Option Err) (fn : Option ℕ)
      → R r (visit_checked env ctx phase i h r c fn).1
  unfolding visit_checked
  visit_checked-R i h r (some e) fn = f.same r
  visit_checked-R i h r none none = f.same r
  visit_checked-R i h r none (some fn) = blame-R i h r (run_hook env ctx fn r) (f.hook ctx fn r)

  phase_loop-R : (i : ℕ) (hs : List Hook) (r : At env) → R r (phase_loop env ctx phase i hs r).1
  unfolding phase_loop visit_hook
  phase_loop-R i [] r = f.same r
  phase_loop-R i (h ∷ hs) r =
      go (visit_hook env ctx phase i h r)
        (visit_checked-R i h r (context_err env ctx r.world) h.run) (phase_loop-R (suc i) hs)
    where
      go :
          (v : Option Err × At env)
          → R r v.1
          → ((s : At env) → R s (phase_loop env ctx phase (suc i) hs s).1)
          → R r (and_then env v (phase_loop env ctx phase (suc i) hs)).1
      go (some e, s) g k = g
      go (none, s) g k = f.chain _ _ _ g (k s)

  pub run_phase-R : (hooks : List Hook) (r : At env) → R r (run_phase env ctx phase hooks r).1
  unfolding run_phase
  run_phase-R hooks r = phase_loop-R 0 (order_hooks hooks) r

-- A relation between the module before and after, which each effect follows.
pub by_effects :
    (env : Environment) (S : Base → Base → Type 0)
    → ((b : Base) → S b b)
    → ((a b c : Base) → S a b → S b c → S a c)
    → ((es : List Effect) (b : Base) → S b (apply_all es b))
    → (ctx : Ctx) (phase : Phase) (hooks : List Hook) (r : At env)
    → S r.base (run_phase env ctx phase hooks r).1.base
unfolding run_hook
by_effects env S same chain each = run_phase-R env (record {
  R = λ a b. S a.base b.base;
  same = λ r. same r.base;
  chain = λ a b c. chain a.base b.base c.base;
  hook = λ ctx fn r. each _ r.base;
})
