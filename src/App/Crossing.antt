-- ===== src/App/Crossing.antt =====
-- Two modules that start at the same time, one of which fails, and the theorem on a layer at them.
use mathlib.Core.List.Perm
use appmod.Common.{
  ℕ, zero, suc, All, ◌==◌, if◌then◌else◌, Name, name_eqb, name_discrete, bytes, List, [], ◌∷◌, none,
  some, ◌≡◌, refl, arith, Occurs, pos, ◌⊎◌, inl, inr, ◌+◌, false, sym, ◌∙◌, ap,
}
use appmod.Errors.{foreign}
use appmod.Base.Defs.{Base, Hook, created, running, failed}
use appmod.Base.Environment.{Environment, given, detached, returned, adds_cleanup, apply_all}
use appmod.App.{Rest, World}
use appmod.App.Together.{Layer, ended, play, repeat, spawned}
use appmod.App.Interleaved.{Tells, play-Tells}

abbrev db : Name
db = bytes "db"

abbrev api : Name
api = bytes "api"

-- The world is the last hook or cleanup that ran. The hook 2 fails.
abbrev tracing : Environment
tracing = record {
  World = List ℕ;
  ctx_err = λ c w. none;
  call_hook = λ fn ctx v w. (
    record {
      effects = adds_cleanup (some (fn + 10)) ∷ [];
      outcome = returned (if fn == 2 then some (foreign 1) else none);
    },
    fn ∷ w,
  );
  call_cleanup = λ fn ctx w. (record { effects = []; outcome = returned none }, fn ∷ w);
}

abbrev rest : Rest
rest = record {
  env = tracing;
  app_ctx = 7;
  checks_health = λ h. false;
  health_check = λ h ctx w. (none, w);
  end_shutdown = λ w. w;
  await_shutdown = λ ctx w. w;
  teardown_ctx = λ ctx w. detached ctx;
  wait_result = λ e w. e;
  sh_exit_code = λ w. 0;
  arrange = λ w names. names;
  arrange-perm = λ w names. Perm.refl names;
}

abbrev hook : ℕ → Hook
hook fn = record { name = []; priority = pos 0; run = some fn }

abbrev with_hooks : List Hook → List Hook → Base
with_hooks before after = record {
  config = none;
  logger = none;
  app_ctx = none;
  before_start_hooks = before;
  after_start_hooks = after;
  before_destroy_hooks = [];
  after_destroy_hooks = [];
  cleanups = [];
  state = created;
}

abbrev store : World rest
store = record {
  outer = [];
  base = λ h.
      if h == 1
      then with_hooks (hook 1 ∷ []) (hook 2 ∷ [])
      else with_hooks (hook 3 ∷ []) (hook 4 ∷ []);
}

abbrev handle_of : Name → ℕ
handle_of x = if name_eqb x db then 1 else 2

-- They take turns.
abbrev turns : ℕ → List Name
turns zero = []
turns (suc n) = db ∷ api ∷ turns n

abbrev crossing : List Name
crossing = turns 8

abbrev behind : Layer rest (given 0) handle_of
behind = play rest (given 0) handle_of crossing (spawned rest (given 0) handle_of store [])

behind_runs :
    (behind.started ≡ api ∷ [])
    × (behind.world.outer ≡ 11 ∷ 12 ∷ 4 ∷ 2 ∷ 3 ∷ 1 ∷ [])
    × ((behind.world.base 1).state ≡ failed)
    × ((behind.world.base 2).state ≡ running)
    × (behind.stage db ≡ ended)
unfolding play apply_all name_discrete
behind_runs = (refl, refl, refl, refl, refl)

within : (x : Name) → Occurs x (db ∷ api ∷ []) → (x ≡ db) ⊎ (x ≡ api)
within x o = elim (name_discrete x db) [
  | yes e ↦ inl e
  | no n ↦ elim (name_discrete x api) [ yes e ↦ inr e | no m ↦ absurd (ground arith) ]
]

apart :
    (x y : Name)
    → Occurs x (db ∷ api ∷ [])
    → Occurs y (db ∷ api ∷ [])
    → handle_of x ≡ handle_of y
    → x ≡ y
unfolding name_discrete
apart x y o u e = elim (within x o) [
  | inl p ↦ elim (within y u) [
    | inl q ↦ p ∙ sym q
    | inr q ↦ absurd (omega (arith, e, ap handle_of p, ap handle_of q))
  ]
  | inr p ↦ elim (within y u) [
    | inl q ↦ absurd (omega (arith, e, ap handle_of p, ap handle_of q))
    | inr q ↦ p ∙ sym q
  ]
]

has_db : Occurs db (db ∷ api ∷ [])
has_db = ground arith

has_api : Occurs api (db ∷ api ∷ [])
has_api = ground arith

turns-within : (n : ℕ) → All (λ x. Occurs x (db ∷ api ∷ [])) (turns n)
turns-within zero = tt
turns-within (suc n) = (has_db, (has_api, turns-within n))

play-Tells_example :
    Tells rest (given 0) handle_of (db ∷ api ∷ []) [] apart api (behind.stage api) behind
    × ((n : ℕ) × ((play rest (given 0) handle_of (repeat n api) behind).stage api ≡ ended))
play-Tells_example =
    play-Tells rest (given 0) handle_of (db ∷ api ∷ []) [] apart crossing store api (turns-within 8)
      has_api
