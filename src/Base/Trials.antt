-- ===== src/Base/Trials.antt =====
-- A module that acquires two things and fails, and the theorem on what a module holds at it.
use appmod.Common.{
  ℕ, ◌+◌, ◌-◌, [], ◌∷◌, none, some, pos, ◌≡◌, ◌≢◌, ◌⊎◌, refl, arith, ◌==◌, if◌then◌else◌,
}
use appmod.Errors.{foreign}
use appmod.Base.Defs.{Base, Hook, created, failed}
use appmod.Base.Environment.{Environment, given, returned, adds_cleanup, apply_all}
use appmod.Base.Lifecycle.{At, init, destroy}
use appmod.Base.Steps.{entering, steps}
use appmod.Base.Steps
use appmod.Base.Alike.{steps-init}
use appmod.Base.Balance.{Balanced, Level, lifecycle-Level}

-- Every hook acquires one thing; the hook 2 fails then.
abbrev acquiring : Environment
acquiring = record {
  World = ℕ;
  ctx_err = λ c w. none;
  call_hook = λ fn ctx v w. (
    record {
      effects = adds_cleanup (some 7) ∷ [];
      outcome = returned (if fn == 2 then some (foreign 1) else none);
    },
    w + 1,
  );
  call_cleanup = λ fn ctx w. (record { effects = []; outcome = returned none }, w - 1);
}

abbrev balanced : Balanced acquiring
balanced = record {
  held = λ w. w;
  hook = λ fn ctx v w. refl;
  cleanup = λ fn ctx w h. (omega (arith, h), refl);
}

abbrev hook : ℕ → Hook
hook fn = record { name = []; priority = pos 0; run = some fn }

abbrev opener : Base
opener = record {
  config = none;
  logger = none;
  app_ctx = none;
  before_start_hooks = hook 1 ∷ [];
  after_start_hooks = hook 2 ∷ [];
  before_destroy_hooks = [];
  after_destroy_hooks = [];
  cleanups = [];
  state = created;
}

-- Other modules hold five things.
abbrev opening : At acquiring
opening = record { world = 5; base = opener }

opening-failed :
    ((init acquiring (given 0) opening).1.base.state ≡ failed)
    × ((init acquiring (given 0) opening).1.world ≡ 5)
unfolding init apply_all
opening-failed = (refl, refl)

lifecycle-Level_example :
    Level acquiring balanced (given 0) 5 (destroy acquiring (given 0) opening).1
    × Level acquiring balanced (given 0) 5 (init acquiring (given 0) opening).1
    × (((init acquiring (given 0) opening).1.base.state ≢ failed)
        ⊎ (balanced.held (init acquiring (given 0) opening).1.world ≡ 5))
lifecycle-Level_example = lifecycle-Level acquiring balanced (given 0) 5 opening refl

-- The first hook acquires, the second fails, and two cleanups are run.
steps-init_example :
    (n : ℕ) × (steps acquiring (given 0) n (entering, opening)
      ≡ (Steps.returned (init acquiring (given 0) opening).0, (init acquiring (given 0) opening).1))
steps-init_example = steps-init acquiring (given 0) opening
