-- ===== src/Base/Examples.antt =====
-- A module with hooks and cleanups, what the code does with it, and the theorems at these inputs.
use appmod.Common.{
  ℕ, Name, bytes, none, some, List, [], ◌∷◌, ◌≡◌, refl, ◌⊎◌, true, false, pos, negsuc, ℤ, Perm,
  select, ◌≢◌, ◌==◌, if◌then◌else◌,
}
use appmod.Common.Sort.{IsSorted}
use appmod.Phase.{after_destroy, Phase, before_start, valid}
use appmod.Errors.{foreign, sentinel, canceled, already_initialized, not_initialized}
use appmod.Base.Defs.{
  Base, Hook, State, created, running, destroying, destroyed, failed, remove_hook, hooks_for,
  initializing,
}
use appmod.Base.Environment.{Environment, given, Call, returned, panics, adds_cleanup, apply_all}
use appmod.Base.Lifecycle.{At, can_init, order_hooks, run_phase, run_cleanups, init, destroy}
use appmod.Base.Recording.{recording, log_of, cleanups_ran, hook_ran, cleanup_ran}
use appmod.Base.Phases.{Ran, run_phase-Ran}
use appmod.Base.Cleanups.{run_cleanups-log}
use appmod.Base.Starting.{Started, init-Started}
use appmod.Base.Options.{all_valid, as_options, hooks_in, new_module, new_module_lem}
use appmod.Base.Hooks.{
  order_hooks_lem, remove_hook_lem, Changed, le_priority, has_priority, any_named, unnamed_by,
}

abbrev ok : Call
ok = record { effects = []; outcome = returned none }

-- Closure 1 registers the cleanup 10, closure 2 fails, closure 3 panics, closure 4 cancels the
-- context; cleanup 11 fails.
abbrev behave : ℕ → ℕ → Call × ℕ
behave fn w =
    if fn == 1
    then (record { effects = adds_cleanup (some 10) ∷ []; outcome = returned none }, w)
    else if fn == 2
    then (record { effects = []; outcome = returned (some (foreign 7)) }, w)
    else if fn == 3
    then (record { effects = []; outcome = panics 9 }, w)
    else if fn == 4
    then (ok, 1)
    else if fn == 11
    then (record { effects = []; outcome = returned (some (sentinel not_initialized)) }, w)
    else (ok, w)

abbrev sample : Environment
sample = record {
  World = ℕ;
  ctx_err = λ c w. if w == 0 then none else some (sentinel canceled);
  call_hook = λ fn ctx v w. behave fn w;
  call_cleanup = λ fn ctx w. behave fn w;
}

abbrev hook : ℕ → ℤ → Name → Hook
hook fn p name = record { name = name; priority = p; run = some fn }

-- Its AfterStart hook `last` is given.
abbrev app_module : ℕ → State → Base
app_module last s = record {
  config = none;
  logger = none;
  app_ctx = none;
  before_start_hooks = hook 5 (pos 3) [] ∷ hook 1 (negsuc 0) (bytes "open") ∷ [];
  after_start_hooks = hook last (pos 0) (bytes "last") ∷ [];
  before_destroy_hooks = hook 6 (pos 0) [] ∷ [];
  after_destroy_hooks = hook 7 (pos 0) [] ∷ [];
  cleanups = 11 ∷ [];
  state = s;
}

abbrev at : ℕ → State → At (recording sample)
at last s = record { world = record { inner = 0; log = [] }; base = app_module last s }

program : Unit {0}
unfolding init destroy apply_all
program = tt

-- A start that goes through, and one whose last hook panics.
init_up :
    let w = init (recording sample) (given 0) (at 8 created) in
    (log_of w.1 ≡ hook_ran 1 initializing ∷ hook_ran 5 initializing ∷ hook_ran 8 initializing ∷ [])
    × (w.0 ≡ none)
    × (w.1.base.cleanups ≡ 11 ∷ 10 ∷ [])
unfolding program
init_up = (refl, refl, refl)

init_down :
    let w = init (recording sample) (given 0) (at 3 created) in
    (log_of w.1
      ≡ hook_ran 1 initializing
        ∷ hook_ran 5 initializing
        ∷ hook_ran 3 initializing
        ∷ cleanup_ran 10
        ∷ cleanup_ran 11
        ∷ [])
    × (w.1.base.state ≡ failed)
unfolding program
init_down = (refl, refl)

destroy_down :
    let w = destroy (recording sample) (given 0) (at 3 running) in
    (log_of w.1 ≡ hook_ran 6 destroying ∷ cleanup_ran 11 ∷ hook_ran 7 destroyed ∷ [])
    × (w.1.base.state ≡ destroyed)
unfolding program
destroy_down = (refl, refl)

init-Started_example :
    let w = init (recording sample) (given 0) (at 3 created) in
    ((can_init created ≡ false)
      × (w.0 ≡ some (sentinel already_initialized))
      × (w.1 ≡ at 3 created))
    ⊎ ((can_init created ≡ true) × Started sample (given 0) (at 3 created) w.0 w.1)
init-Started_example = init-Started sample (given 0) (at 3 created)

run_phase-Ran_example :
    let hooks = hook 4 (pos 0) [] ∷ hook 2 (pos 1) [] ∷ [] in
    let w = run_phase (recording sample) (given 0) before_start hooks (at 3 initializing) in
    Ran sample (given 0) before_start 0 (order_hooks hooks) (at 3 initializing) w.0 w.1
run_phase-Ran_example =
    run_phase-Ran sample (given 0) before_start (hook 4 (pos 0) [] ∷ hook 2 (pos 1) [] ∷ [])
      (at 3 initializing)

run_cleanups-log_example :
    log_of (run_cleanups (recording sample) (given 0) (at 3 failed)).1 ≡ cleanups_ran (11 ∷ [])
run_cleanups-log_example = run_cleanups-log sample (given 0) (at 3 failed)

abbrev three : List Hook
three = hook 1 (pos 2) [] ∷ hook 2 (negsuc 4) [] ∷ hook 3 (pos 2) (bytes "x") ∷ []

order_hooks_lem_example :
    Perm (order_hooks three) three
    × IsSorted le_priority (order_hooks three)
    × ((p : ℤ) → select (has_priority p) (order_hooks three) ≡ select (has_priority p) three)
order_hooks_lem_example = order_hooks_lem three

remove_hook_lem_example :
    let b = app_module 3 created in
    let n = bytes "open" in
    ((valid before_start ≡ false) × (remove_hook before_start n b ≡ none))
    ⊎ ((valid before_start ≡ true) × (n ≡ []) × (remove_hook before_start n b ≡ some (b, false)))
    ⊎ ((valid before_start ≡ true)
        × (n ≢ [])
        × ((hs : List Hook) × (b' : Base) × (hooks_for before_start b ≡ some hs)
            × (remove_hook before_start n b ≡ some (b', any_named n hs))
            × Changed before_start (select (unnamed_by n) hs) b b'))
remove_hook_lem_example = remove_hook_lem before_start (bytes "open") (app_module 3 created)

abbrev options_given : List (Phase × Hook)
options_given =
    (before_start, hook 1 (pos 2) [])
    ∷ (after_destroy, hook 7 (pos 0) [])
    ∷ (before_start, hook 5 (pos 0) [])
    ∷ []

new_module_lem_example :
    ((all_valid options_given ≡ false) × (new_module (as_options options_given) ≡ none))
    ⊎ ((all_valid options_given ≡ true)
        × ((b : Base) × (new_module (as_options options_given) ≡ some b)
            × (b.state ≡ created)
            × (b.cleanups ≡ [])
            × ((p : Phase) → valid p ≡ true → hooks_for p b ≡ some (hooks_in p options_given))))
new_module_lem_example = new_module_lem options_given
