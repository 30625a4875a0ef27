-- ===== src/Base/Cleanups.antt =====
-- `runCleanups` and the rollback of a failed start: every cleanup runs, the last one first.
use appmod.Common.{
  ℕ, suc, List, [], ◌∷◌, ◌++◌, ◌≡◌, refl, sym, ap, ◌∙◌, reverse, append_assoc, append-nil, map,
  map-reverse, ◌||◌, arith,
}
use appmod.Errors.{Err, Sentinel, join, joined, errs_of, is_err, is_err?, any_is, is_err-join}
use appmod.Base.Defs.{failed, destroying}
use appmod.Base.Environment.{Environment, Ctx}
use appmod.Base.Lifecycle.{
  At, number, run_cleanup, cleanup_loop, run_cleanups, fail_init, enter, join_cause,
}
use appmod.Base.Recording.{recording, log_of, cleanups_ran, apply_all-state}

number-closures : (i : ℕ) (fns : List ℕ) → map (λ p. p.1) (number i fns) ≡ fns
number-closures i [] = refl
number-closures i (fn ∷ fns) = ap (◌∷◌ fn) (number-closures (suc i) fns)

module _ (env : Environment) (ctx : Ctx) where
  abbrev Logs : Type 0
  Logs = At (recording env)

  cleanup_loop-log :
      (fns : List (ℕ × ℕ)) (r : Logs)
      → log_of (cleanup_loop (recording env) ctx fns r).1
        ≡ log_of r ++ cleanups_ran (map (λ p. p.1) fns)
  unfolding cleanup_loop
  cleanup_loop-log [] r = sym (append-nil _)
  cleanup_loop-log ((i, fn) ∷ fns) r =
      cleanup_loop-log fns (run_cleanup (recording env) ctx fn r).1 ∙ append_assoc (log_of r) _ _

  cleanup_loop-state :
      (fns : List (ℕ × ℕ)) (r : Logs)
      → (cleanup_loop (recording env) ctx fns r).1.base.state ≡ r.base.state
  unfolding cleanup_loop
  cleanup_loop-state [] r = refl
  cleanup_loop-state ((i, fn) ∷ fns) r =
      cleanup_loop-state fns (run_cleanup (recording env) ctx fn r).1 ∙ apply_all-state _ _

  -- Every registered cleanup runs once, in reverse order of registration, whatever the earlier
  -- ones returned and whether or not they panicked.
  pub run_cleanups-log :
      (r : Logs)
      → log_of (run_cleanups (recording env) ctx r).1
        ≡ log_of r ++ cleanups_ran (reverse r.base.cleanups)
  unfolding run_cleanups
  run_cleanups-log r =
      cleanup_loop-log (reverse (number 0 r.base.cleanups)) _
      ∙ ap (λ fns. log_of r ++ cleanups_ran fns)
          (map-reverse _ (number 0 r.base.cleanups)
            ∙ ap reverse (number-closures 0 r.base.cleanups))

  pub run_cleanups-state :
      (r : Logs) → (run_cleanups (recording env) ctx r).1.base.state ≡ r.base.state
  unfolding run_cleanups
  run_cleanups-state r = cleanup_loop-state (reverse (number 0 r.base.cleanups)) _

  pub fail_init-is_err :
      (cause : Err) (r : Logs) (t : Sentinel)
      → is_err? (fail_init (recording env) ctx cause r).0 t ≡ (
          is_err cause t
          || any_is (run_cleanups (recording env) ctx (enter (recording env) destroying r)).0 t)
  unfolding fail_init
  fail_init-is_err cause r t =
      go (run_cleanups (recording env) ctx (enter (recording env) destroying r)).0
    where
      go :
          (es : List Err)
          → is_err (join_cause (recording env) cause (join es)) t ≡ (is_err cause t || any_is es t)
      go [] = ground arith
      go (e ∷ es) =
          ground
            (arith, is_err-join (cause ∷ joined (errs_of (e ∷ es)) ∷ []) t, is_err-join (e ∷ es) t)

  pub fail_init-log :
      (cause : Err) (r : Logs)
      → log_of (fail_init (recording env) ctx cause r).1
        ≡ log_of r ++ cleanups_ran (reverse r.base.cleanups)
  unfolding fail_init
  fail_init-log cause r = run_cleanups-log (enter (recording env) destroying r)

  pub fail_init-state :
      (cause : Err) (r : Logs) → (fail_init (recording env) ctx cause r).1.base.state ≡ failed
  unfolding fail_init
  fail_init-state cause r = refl
