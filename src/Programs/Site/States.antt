-- ===== src/Programs/Site/States.antt =====
-- The states that the program of examples/manager/main.go goes through, and each of its starts and
-- stops of a module from one of them to another.
use appmod.Common.{
  ℕ, name_discrete, Bool, true, false, Option, none, some, List, [], ◌∷◌, ◌++◌, ◌≡◌, refl,
  if◌then◌else◌,
}
use appmod.Base.Defs.{Base, State, created, running, destroyed}
use appmod.Base.Environment.{Ctx, given, detached, apply_all}
use appmod.Base.Lifecycle.{Run, init, destroy}
use appmod.Registry.{Value}
use appmod.Programs.Site.{
  Shared, Line, providing_db, warmed, providing_cache, drained, read_first, second_not_found,
  db_value, cache_value, db_contract, cache_contract, first_user, alice,
}
use appmod.Programs.Site.Parts.{Outside, site_env, parts, hook_result}

-- The module with this pointer, with the context that was injected.
abbrev pub part : ℕ → Option ℕ → State → Base
part h app_ctx s = record (parts h) { app_ctx = app_ctx; state = s }

abbrev pub services_with : (db cache : Bool) → List (ℕ × Value)
services_with db cache =
    (if db then (db_contract, db_value) ∷ [] else [])
    ++ (if cache then (cache_contract, cache_value) ∷ [] else [])

abbrev pub lines_with : (db cache api : Bool) → List Line
lines_with db cache api =
    (if db then providing_db ∷ [] else [])
    ++ (if cache then warmed alice ∷ providing_cache ∷ [] else [])
    ++ (if api then read_first alice ∷ second_not_found ∷ [] else [])

-- Before the shutdown, with some of the modules up.
abbrev pub rising_with : (db worker cache api : Bool) → Shared
rising_with db worker cache api = record {
  registry = some (record { services = services_with db cache });
  cache_db = if cache then some db_value else none;
  store = if cache then (first_user, alice) ∷ [] else [];
  workers = if worker then 1 else 0;
  closes = 0;
  shut_down = false;
  stuck = false;
  output = lines_with db cache api;
}

-- Behind the shutdown, with some of the modules still up.
abbrev pub falling_with : (db worker : Bool) → Shared
falling_with db worker = record {
  registry = some (record { services = services_with db true });
  cache_db = some db_value;
  store = (first_user, alice) ∷ [];
  workers = if worker then 1 else 0;
  closes = if worker then 0 else 1;
  shut_down = true;
  stuck = false;
  output = lines_with true true true ++ (if worker then [] else drained ∷ []);
}

unfoldable pub computed : Unit {0}
unfolding init destroy parts hook_result apply_all name_discrete
computed = tt

module _ (out : Outside) (open_ended : (c : ℕ) (w : Shared) → out.ctx_err c w ≡ none) where
  -- A module in some state, among the rest.
  abbrev pub among : Shared → ℕ → Option ℕ → State → Run Shared
  among w h app_ctx s = record { world = w; base = part h app_ctx s }

  -- `Init` of a module that was made, and of what it leaves.
  abbrev pub Comes : Ctx → ℕ → Option ℕ → Shared → Shared → Type 0
  Comes ctx h c w w' = init (site_env out) ctx (among w h c created) ≡ (none, among w' h c running)

  pub init-config : (ctx : Ctx) (c : Option ℕ) (w : Shared) → Comes ctx 0 c w w
  unfolding computed
  init-config ctx c w = refl

  pub init-db :
      (ctx : Ctx) (c : Option ℕ) (worker : Bool)
      → Comes ctx 1 c (rising_with false worker false false) (rising_with true worker false false)
  unfolding computed
  init-db (given n) c worker = rw (open_ended n) refl
  init-db (detached n) c worker = refl

  pub init-worker :
      (ctx : Ctx) (c : Option ℕ) (db cache api : Bool)
      → Comes ctx 2 c (rising_with db false cache api) (rising_with db true cache api)
  unfolding computed
  init-worker (given n) c db cache api = rw (open_ended n) refl
  init-worker (detached n) c db cache api = refl

  pub init-cache :
      (ctx : Ctx) (c : Option ℕ) (worker : Bool)
      → Comes ctx 3 c (rising_with true worker false false) (rising_with true worker true false)
  unfolding computed
  init-cache (given n) c worker = rw (open_ended n) refl
  init-cache (detached n) c worker = refl

  pub init-api :
      (ctx : Ctx) (c : Option ℕ) (worker : Bool)
      → Comes ctx 4 c (rising_with true worker true false) (rising_with true worker true true)
  unfolding computed
  init-api (given n) c worker = rw (open_ended n) refl
  init-api (detached n) c worker = refl

  -- `Destroy` of a running module.
  abbrev pub Goes : Ctx → ℕ → Option ℕ → Shared → Shared → Type 0
  Goes ctx h c w w' =
      destroy (site_env out) ctx (among w h c running) ≡ (none, among w' h c destroyed)

  pub destroy-config : (ctx : Ctx) (c : Option ℕ) (w : Shared) → Goes ctx 0 c w w
  unfolding computed
  destroy-config ctx c w = refl

  pub destroy-db :
      (ctx : Ctx) (c : Option ℕ) (worker : Bool)
      → Goes ctx 1 c (falling_with true worker) (falling_with false worker)
  unfolding computed
  destroy-db (given n) c worker = rw (open_ended n) refl
  destroy-db (detached n) c worker = refl

  pub destroy-worker :
      (ctx : Ctx) (c : Option ℕ) (db : Bool)
      → Goes ctx 2 c (falling_with db true) (falling_with db false)
  unfolding computed
  destroy-worker (given n) c db = rw (open_ended n) refl
  destroy-worker (detached n) c db = refl

  pub destroy-cache : (ctx : Ctx) (c : Option ℕ) (w : Shared) → Goes ctx 3 c w w
  unfolding computed
  destroy-cache ctx c w = refl

  pub destroy-api : (ctx : Ctx) (c : Option ℕ) (w : Shared) → Goes ctx 4 c w w
  unfolding computed
  destroy-api ctx c w = refl
