-- ===== src/Base/Recording.antt =====
-- A world that remembers, in order, which closures a lifecycle operation ran.
use appmod.Common.{ℕ, none, some, List, [], ◌∷◌, ◌++◌, ◌≡◌, refl, ◌∙◌}
use appmod.Base.Defs.{Base, Hook, State, add_hook, remove_hook}
use appmod.Base.Environment.{
  Environment, Call, Effect, adds_cleanup, sets_config, sets_logger, sets_app_context, adds_hook,
  removes_hook, apply, apply_all,
}
use appmod.Base.Lifecycle.{Run}
use appmod.Phase.{before_start, after_start, before_destroy, after_destroy, unnamed}
use native.Mathlib.Omega.{arith}

-- A hook with the state that it read, or a cleanup.
pub data Event : Type 0 where
  hook_ran : (fn : ℕ) → State → Event
  cleanup_ran : (fn : ℕ) → Event

pub record Logged (W : Type 0) : Type 0 where
  pub inner : W
  pub log : List Event

abbrev write : {W : Type 0} → List Event → Event → Call × W → Call × Logged W
write l e (call, w) = (call, record { inner = w; log = l ++ e ∷ [] })

abbrev pub recording : Environment → Environment
recording env = record {
  World = Logged (env.World);
  ctx_err = λ c w. env.ctx_err c w.inner;
  call_hook = λ fn ctx v w. write w.log (hook_ran fn v.state) (env.call_hook fn ctx v w.inner);
  call_cleanup = λ fn ctx w. write w.log (cleanup_ran fn) (env.call_cleanup fn ctx w.inner);
}

abbrev pub log_of : {W : Type 0} → Run (Logged W) → List Event
log_of r = r.world.log

-- The hooks of a list that have a function, each with the state that it reads.
abbrev pub hooks_ran : State → List Hook → List Event
hooks_ran s [] = []
hooks_ran s (h ∷ hs) = elim h.run [
  | none ↦ hooks_ran s hs
  | some fn ↦ hook_ran fn s ∷ hooks_ran s hs
]

abbrev pub cleanups_ran : List ℕ → List Event
cleanups_ran [] = []
cleanups_ran (fn ∷ fns) = cleanup_ran fn ∷ cleanups_ran fns

pub hooks_ran-append :
    (s : State) (xs ys : List Hook) → hooks_ran s (xs ++ ys) ≡ hooks_ran s xs ++ hooks_ran s ys
hooks_ran-append s [] ys = refl
hooks_ran-append s (h ∷ xs) ys = ground (arith, hooks_ran-append s xs ys)

-- What a closure does to its module leaves the lifecycle state alone.
apply-state : (e : Effect) (b : Base) → (apply e b).state ≡ b.state
unfolding apply add_hook remove_hook
apply-state (adds_cleanup none) b = refl
apply-state (adds_cleanup (some fn)) b = refl
apply-state (sets_config c) b = refl
apply-state (sets_logger l) b = refl
apply-state (sets_app_context c) b = refl
apply-state (adds_hook before_start h) b = refl
apply-state (adds_hook after_start h) b = refl
apply-state (adds_hook before_destroy h) b = refl
apply-state (adds_hook after_destroy h) b = refl
apply-state (adds_hook (unnamed n) h) b = refl
apply-state (removes_hook before_start n) b = ground arith
apply-state (removes_hook after_start n) b = ground arith
apply-state (removes_hook before_destroy n) b = ground arith
apply-state (removes_hook after_destroy n) b = ground arith
apply-state (removes_hook (unnamed n) m) b = refl

pub apply_all-state : (es : List Effect) (b : Base) → (apply_all es b).state ≡ b.state
unfolding apply_all
apply_all-state [] b = refl
apply_all-state (e ∷ es) b = apply_all-state es (apply e b) ∙ apply-state e b
