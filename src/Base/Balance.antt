-- ===== src/Base/Balance.antt =====
-- No leaks: what hooks acquire, and register the release of, is released by the teardown.
use appmod.Common.{
  ℕ, suc, ◌+◌, ◌<◌, Option, none, some, List, [], ◌∷◌, length, length-append, reverse, ◌≡◌, refl,
  sym, ap, ◌∙◌, arith, Bool-cases, inl, inr, true, ◌≢◌, ◌⊎◌, subst,
}
use mathlib.Core.List.{reverse-cons}
use appmod.Phase.{before_start, after_start, before_destroy, after_destroy, unnamed}
use appmod.Errors.{Err}
use appmod.Base.Defs.{Base, add_hook, remove_hook, destroying, destroyed, initializing, failed}
use appmod.Base.Environment.{
  Environment, Ctx, View, Effect, adds_cleanup, sets_config, sets_logger, sets_app_context,
  adds_hook, removes_hook, apply, apply_all,
}
use appmod.Base.Lifecycle.{
  At, number, can_init, is_running, enter, run_hook, run_cleanup, cleanup_loop, run_cleanups,
  rollback, fail_init, or_fail_init, publish_running, init_after, init_from, init, run_phase,
  or_keep_running, destroy_after, destroy_from, destroy,
}
use appmod.Base.Outcomes.{Inited, init-Inited}
use appmod.Base.Following.{Follows, run_phase-R}

-- How many cleanups a call registers.
abbrev pub registered : List Effect → ℕ
registered [] = 0
registered (adds_cleanup (some fn) ∷ es) = suc (registered es)
registered (adds_cleanup none ∷ es) = registered es
registered (sets_config c ∷ es) = registered es
registered (sets_logger l ∷ es) = registered es
registered (sets_app_context c ∷ es) = registered es
registered (adds_hook p h ∷ es) = registered es
registered (removes_hook p n ∷ es) = registered es

apply-length :
    (e : Effect) (b : Base) → length (apply e b).cleanups ≡ length b.cleanups + registered (e ∷ [])
unfolding apply add_hook remove_hook
apply-length (adds_cleanup none) b = omega arith
apply-length (adds_cleanup (some fn)) b = omega (arith, length-append b.cleanups (fn ∷ []))
apply-length (sets_config c) b = omega arith
apply-length (sets_logger l) b = omega arith
apply-length (sets_app_context c) b = omega arith
apply-length (adds_hook before_start h) b = omega arith
apply-length (adds_hook after_start h) b = omega arith
apply-length (adds_hook before_destroy h) b = omega arith
apply-length (adds_hook after_destroy h) b = omega arith
apply-length (adds_hook (unnamed n) h) b = omega arith
apply-length (removes_hook before_start n) b = ground arith
apply-length (removes_hook after_start n) b = ground arith
apply-length (removes_hook before_destroy n) b = ground arith
apply-length (removes_hook after_destroy n) b = ground arith
apply-length (removes_hook (unnamed n) m) b = omega arith

apply_all-length :
    (es : List Effect) (b : Base)
    → length (apply_all es b).cleanups ≡ length b.cleanups + registered es
unfolding apply_all
apply_all-length [] b = omega arith
apply_all-length (e ∷ es) b =
    omega (arith, apply_all-length es (apply e b), apply-length e b, registered-cons e es)
  where
    registered-cons :
        (e : Effect) (es : List Effect) → registered (e ∷ es) ≡ registered (e ∷ []) + registered es
    registered-cons (adds_cleanup (some fn)) es = omega arith
    registered-cons (adds_cleanup none) es = omega arith
    registered-cons (sets_config c) es = omega arith
    registered-cons (sets_logger l) es = omega arith
    registered-cons (sets_app_context c) es = omega arith
    registered-cons (adds_hook p h) es = omega arith
    registered-cons (removes_hook p n) es = omega arith

length-number : (i : ℕ) (fns : List ℕ) → length (number i fns) ≡ length fns
length-number i [] = refl
length-number i (fn ∷ fns) = ap suc (length-number (suc i) fns)

length-reverse : {A : Type 0} (l : List A) → length (reverse l) ≡ length l
length-reverse [] = refl
length-reverse (x ∷ xs) =
    ap length (reverse-cons x xs)
    ∙ length-append (reverse xs) (x ∷ [])
    ∙ omega (arith, length-reverse xs)

-- `held` counts what is acquired and not yet released. A hook acquires as much as it registers
-- cleanups, also if it fails, and a cleanup releases one and registers none.
pub record Balanced (env : Environment) : Type 0 where
  pub held : env.World → ℕ
  pub hook :
      (fn : ℕ) (ctx : Ctx) (v : View) (w : env.World)
      → let r = env.call_hook fn ctx v w in held r.1 ≡ held w + registered r.0.effects
  pub cleanup :
      (fn : ℕ) (ctx : Ctx) (w : env.World)
      → 0 < held w
      → let r = env.call_cleanup fn ctx w in (held r.1 + 1 ≡ held w) × (registered r.0.effects ≡ 0)

module _ (env : Environment) (bal : Balanced env) (ctx : Ctx) (c : ℕ) where
  open bal use {held}

  -- Of what is held, all but `c` has its release registered.
  abbrev pub Level : At env → Type 0
  Level r = held r.world ≡ c + length r.base.cleanups

  abbrev follows : Follows env
  unfolding run_hook
  follows = record {
    R = λ r r'. Level r → Level r';
    same = λ r h. h;
    chain = λ a b d f g h. g (f h);
    hook = λ ctx fn r h. omega (arith, h, bal.hook fn ctx _ r.world, apply_all-length _ r.base);
  }

  cleanup_loop-Level :
      (fns : List (ℕ × ℕ)) (r : At env)
      → held r.world ≡ c + length fns + length r.base.cleanups
      → let r' = (cleanup_loop env ctx fns r).1 in
        Level r' × (length r'.base.cleanups ≡ length r.base.cleanups)
  unfolding cleanup_loop run_cleanup
  cleanup_loop-Level [] r h = (omega (arith, h), refl)
  cleanup_loop-Level ((i, fn) ∷ fns) r h =
      let (e, k) = bal.cleanup fn ctx r.world (omega (arith, h)) in
      let l = apply_all-length (env.call_cleanup fn ctx r.world).0.effects r.base in
      let (u, v) =
        cleanup_loop-Level fns (run_cleanup env ctx fn r).1 (omega (arith, h, e, k, l)) in
      (u, omega (arith, v, k, l))

  -- Behind its cleanups a module holds nothing.
  run_cleanups-Level :
      (r : At env)
      → Level r
      → let r' = (run_cleanups env ctx r).1 in Level r' × (length r'.base.cleanups ≡ 0)
  unfolding run_cleanups
  run_cleanups-Level r h =
      cleanup_loop-Level (reverse (number 0 r.base.cleanups)) _ (
        omega
          (arith, h, length-reverse (number 0 r.base.cleanups), length-number 0 r.base.cleanups))

  fail_init-Level :
      (e : Err) (r : At env)
      → Level r
      → let r' = (fail_init env ctx e r).1 in Level r' × (length r'.base.cleanups ≡ 0)
  unfolding fail_init rollback enter
  fail_init-Level e r h = run_cleanups-Level (enter env destroying r) h

  -- What a start leaves: the same, and nothing where it failed.
  abbrev Left : At env → Type 0
  Left r = Level r × (r.base.state ≡ failed → held r.world ≡ c)

  or_fail_init-Left :
      (v : Option Err × At env) (k : At env → Option Err × At env)
      → Level v.1
      → ((r : At env) → Level r → Left (k r).1)
      → Left (or_fail_init env ctx v k).1
  unfolding or_fail_init
  or_fail_init-Left (some e, r) k h f =
      let (u, z) = fail_init-Level e r h in (u, λ q. omega (arith, u, z))
  or_fail_init-Left (none, r) k h f = f r h

  init-Left : (r : At env) → can_init r.base.state ≡ true → Level r → Left (init env ctx r).1
  unfolding init init_from init_after enter
  init-Left r q h =
      rw (q, init)
        (or_fail_init-Left
          (run_phase env ctx before_start r.base.before_start_hooks (enter env initializing r))
          (init_after env ctx)
          (run_phase-R env follows ctx before_start r.base.before_start_hooks
            (enter env initializing r) h)
          (λ s h'.
            or_fail_init-Left (run_phase env ctx after_start s.base.after_start_hooks s)
              (publish_running env)
              (run_phase-R env follows ctx after_start s.base.after_start_hooks s h')
              (λ t u. (u, λ e. cc))))

  destroy_after-Level : (r : At env) → Level r → Level (destroy_after env ctx r).1
  unfolding destroy_after enter
  destroy_after-Level r h =
      let r2 = enter env destroyed (run_cleanups env ctx r).1 in
      run_phase-R env follows ctx after_destroy r2.base.after_destroy_hooks r2
        (run_cleanups-Level r h).0

  or_keep_running-Level :
      (v : Option Err × At env)
      → Level v.1
      → Level (or_keep_running env v (destroy_after env ctx)).1
  unfolding or_keep_running enter
  or_keep_running-Level (some e, r) h = h
  or_keep_running-Level (none, r) h = destroy_after-Level r h

  destroy-Level : (r : At env) → Level r → Level (destroy env ctx r).1
  unfolding destroy destroy_from enter
  destroy-Level r h = elim (Bool-cases (is_running r.base.state)) [
    | inr e ↦ rw (e, destroy) h
    | inl e ↦
        rw (e, destroy)
          (or_keep_running-Level
            (run_phase env ctx before_destroy r.base.before_destroy_hooks (enter env destroying r))
            (run_phase-R env follows ctx before_destroy r.base.before_destroy_hooks
              (enter env destroying r) h))
  ]

  -- If hooks acquire as much as they register cleanups for, whether they fail or not, and each
  -- cleanup releases one thing and registers none, then `Init` and `Destroy` lose nothing: what a
  -- module holds beyond `c` stays what it has cleanups for, and after an `Init` that leaves it
  -- Failed it holds nothing beyond `c`.
  pub lifecycle-Level :
      (r : At env)
      → Level r
      → Level (destroy env ctx r).1
        × Level (init env ctx r).1
        × (((init env ctx r).1.base.state ≢ failed) ⊎ (held (init env ctx r).1.world ≡ c))
  lifecycle-Level r h =
      let (a, b) = go _ _ (init-Inited env ctx r) refl in (destroy-Level r h, a, b)
    where
      go :
          (res : Option Err) (r' : At env)
          → Inited env ctx r res r'
          → (init env ctx r).1 ≡ r'
          → Level r' × ((r'.base.state ≢ failed) ⊎ (held r'.world ≡ c))
      go res r' (Inited.refused q p e) i = (
        subst Level (sym e) h,
        inl (λ f. cc (ap can_init f, ap (λ (t : At env). can_init t.base.state) e, q)),
      )
      go res r' (Inited.up q p e) i = (subst Level i (init-Left r q h).0, inl (λ f. cc))
      go res r' (Inited.down x q p e) i =
          let l = subst Left i (init-Left r q h) in (l.0, inr (l.1 e))
