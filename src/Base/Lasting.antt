-- ===== src/Base/Lasting.antt =====
-- What the hooks and cleanups of a module leave as it is in the world, its lifecycle does too.
use appmod.Common.{ℕ, Option, none, some, List, [], ◌∷◌, reverse, Bool-cases, inl, inr}
use appmod.Phase.{before_start, after_start, before_destroy, after_destroy}
use appmod.Errors.{Err}
use appmod.Base.Defs.{destroying, destroyed, initializing}
use appmod.Base.Environment.{Environment, Ctx, View}
use appmod.Base.Lifecycle.{
  At, number, can_init, is_running, enter, run_hook, run_cleanup, cleanup_loop, run_cleanups,
  rollback, fail_init, or_fail_init, publish_running, init_after, init_from, init, run_phase,
  or_keep_running, destroy_after, destroy_from, destroy,
}
use appmod.Base.Following.{Follows, run_phase-R}

-- What is so of the world stays so in every call.
pub record Lasting (env : Environment) : Type 1 where
  pub Q : env.World → Type 0
  pub hook : (fn : ℕ) (ctx : Ctx) (v : View) (w : env.World) → Q w → Q (env.call_hook fn ctx v w).1
  pub cleanup : (fn : ℕ) (ctx : Ctx) (w : env.World) → Q w → Q (env.call_cleanup fn ctx w).1

module _ (env : Environment) (l : Lasting env) (ctx : Ctx) where
  open l use {Q}

  abbrev Lasts : At env → At env → Type 0
  Lasts r r' = Q r.world → Q r'.world

  abbrev follows : Follows env
  unfolding run_hook
  follows = record {
    R = Lasts;
    same = λ r q. q;
    chain = λ a b c f g q. g (f q);
    hook = λ ctx fn r. l.hook fn ctx _ r.world;
  }

  cleanup_loop-Lasts : (fns : List (ℕ × ℕ)) (r : At env) → Lasts r (cleanup_loop env ctx fns r).1
  unfolding cleanup_loop run_cleanup
  cleanup_loop-Lasts [] r q = q
  cleanup_loop-Lasts ((i, fn) ∷ fns) r q =
      cleanup_loop-Lasts fns (run_cleanup env ctx fn r).1 (l.cleanup fn ctx r.world q)

  run_cleanups-Lasts : (r : At env) → Lasts r (run_cleanups env ctx r).1
  unfolding run_cleanups
  run_cleanups-Lasts r = cleanup_loop-Lasts (reverse (number 0 r.base.cleanups)) _

  or_fail_init-Lasts :
      (a : At env) (v : Option Err × At env) (k : At env → Option Err × At env)
      → Lasts a v.1
      → ((r : At env) → Lasts r (k r).1)
      → Lasts a (or_fail_init env ctx v k).1
  unfolding or_fail_init fail_init rollback enter
  or_fail_init-Lasts a (some e, r) k f h q = run_cleanups-Lasts (enter env destroying r) (f q)
  or_fail_init-Lasts a (none, r) k f h q = h r (f q)

  pub init-Lasts : (r : At env) → Lasts r (init env ctx r).1
  unfolding init init_from init_after enter
  init-Lasts r = elim (Bool-cases (can_init r.base.state)) [
    | inr e ↦ rw (e, init) (λ q. q)
    | inl e ↦
        rw (e, init)
          (or_fail_init-Lasts r
            (run_phase env ctx before_start r.base.before_start_hooks (enter env initializing r))
            (init_after env ctx)
            (run_phase-R env follows ctx before_start r.base.before_start_hooks
              (enter env initializing r))
            (λ s.
              or_fail_init-Lasts s (run_phase env ctx after_start s.base.after_start_hooks s)
                (publish_running env)
                (run_phase-R env follows ctx after_start s.base.after_start_hooks s) (λ t q. q)))
  ]

  destroy_after-Lasts : (r : At env) → Lasts r (destroy_after env ctx r).1
  unfolding destroy_after enter
  destroy_after-Lasts r q =
      let r2 = enter env destroyed (run_cleanups env ctx r).1 in
      run_phase-R env follows ctx after_destroy r2.base.after_destroy_hooks r2
        (run_cleanups-Lasts r q)

  or_keep_running-Lasts :
      (a : At env) (v : Option Err × At env)
      → Lasts a v.1
      → Lasts a (or_keep_running env v (destroy_after env ctx)).1
  unfolding or_keep_running enter
  or_keep_running-Lasts a (some e, r) f q = f q
  or_keep_running-Lasts a (none, r) f q = destroy_after-Lasts r (f q)

  pub destroy-Lasts : (r : At env) → Lasts r (destroy env ctx r).1
  unfolding destroy destroy_from enter
  destroy-Lasts r = elim (Bool-cases (is_running r.base.state)) [
    | inr e ↦ rw (e, destroy) (λ q. q)
    | inl e ↦
        rw (e, destroy)
          (or_keep_running-Lasts r
            (run_phase env ctx before_destroy r.base.before_destroy_hooks (enter env destroying r))
            (run_phase-R env follows ctx before_destroy r.base.before_destroy_hooks
              (enter env destroying r)))
  ]
