-- ===== src/Hub/Restart.antt =====
-- A hub module that is stopped and started again.
use appmod.Common.{
  ℕ, Option, none, some, List, [], ◌∷◌, true, false, ◌≡◌, refl, ap, ◌∙◌, arith, bytes, ite,
  ℕ_discrete,
}
use appmod.Errors.{Err, wrapped, contract, sentinel, is_err, is_err?, duplicate_provider}
use appmod.Config.{new_config}
use appmod.Base.Defs.{Base, State, created, running, destroyed, failed, anonymous}
use appmod.Base.Environment.{Environment, Ctx, detached, apply_all}
use appmod.Phase.{Phase, after_destroy}
use appmod.Base.Lifecycle.{Run, init, destroy, run_phase, run_hook, and_then, blame}
use appmod.Registry.{
  Registry, Value, Types, pointer, find, store, erase, provide, revoke, is_nil_impl,
}
use appmod.Registry.Laws.{find-store, erase-store, find-erase, IsMap}
use appmod.Hub.{
  call_hub_hook, call_hub_cleanup, Bus, Shared, Settings, hub_env, shutdown, new_hub_module,
}

-- The module of `NewModule` without options, in some state and with some cleanups left.
abbrev pub hub_module : List ℕ → State → Base
hub_module cleanups state = record {
  config = some (new_config (bytes "hub") (bytes "v3"));
  logger = none;
  app_ctx = none;
  before_start_hooks = [];
  after_start_hooks = anonymous (some 0) ∷ [];
  before_destroy_hooks = [];
  after_destroy_hooks = anonymous (some 1) ∷ [];
  cleanups = cleanups;
  state = state;
}

abbrev pub defaults : Settings
defaults = record { drains = true; provided = true }

new_hub_module-fresh :
    (hub : Value) → new_hub_module (some hub) [] ≡ some (hub_module (0 ∷ []) created, defaults)
unfolding new_hub_module
new_hub_module-fresh hub = refl

module _ (types : Types) (t : ℕ) (bus : Bus) (hub : Value) (c : Ctx) where
  open bus use {env}

  abbrev pub hub_world : Environment
  hub_world = hub_env types t bus defaults hub

  -- The module with the services of its registry, and the rest of the program.
  abbrev pub at : List (ℕ × Value) → env.World → List ℕ → State → Run (Shared (env.World))
  at s w cleanups state = record {
    world = record { registry = some (record { services = s }); rest = w };
    base = hub_module cleanups state;
  }

  abbrev pub ctx : Ctx
  ctx = detached c

  not_nil : types.kind t ≡ pointer → hub.is_nil ≡ false → is_nil_impl (types.kind t) hub ≡ false
  unfolding is_nil_impl
  not_nil k n = rw k n

  provide-free :
      (s : List (ℕ × Value))
      → is_nil_impl (types.kind t) hub ≡ false
      → find t s ≡ none
      → provide types t (some (record { services = s })) hub
        ≡ (none, some (record { services = store t hub s }))
  unfolding provide store
  provide-free s n f = rw (n, f, provide) refl

  provide-taken :
      (s : List (ℕ × Value)) (v : Value)
      → is_nil_impl (types.kind t) hub ≡ false
      → find t s ≡ some v
      → provide types t (some (record { services = s })) hub ≡ (
        some (wrapped (contract t) (sentinel duplicate_provider)),
        some (record { services = s }),
      )
  unfolding provide
  provide-taken s v n f = rw (n, f, provide) refl

  revoke-found :
      (s : List (ℕ × Value)) (v : Value)
      → find t s ≡ some v
      → revoke t (some (record { services = s }))
        ≡ (true, none, some (record { services = erase t s }))
  unfolding revoke erase
  revoke-found s v f = rw (f, revoke) refl

  -- `Init` publishes the hub under a free contract.
  init-up :
      (s : List (ℕ × Value)) (w : env.World) (cleanups : List ℕ)
      → is_nil_impl (types.kind t) hub ≡ false
      → find t s ≡ none
      → init hub_world ctx (at s w cleanups created) ≡ (none, at (store t hub s) w cleanups running)
  unfolding init apply_all store call_hub_hook
  init-up s w cleanups n f = rw (provide-free s n f) refl

  init-again :
      (s : List (ℕ × Value)) (w : env.World) (cleanups : List ℕ)
      → is_nil_impl (types.kind t) hub ≡ false
      → find t s ≡ none
      → init hub_world ctx (at s w cleanups destroyed)
        ≡ (none, at (store t hub s) w cleanups running)
  unfolding init apply_all store call_hub_hook
  init-again s w cleanups n f = rw (provide-free s n f) refl

  -- What a phase with one hook leaves, whatever the hook returns.
  single_hook :
      (phase : Phase) (fn : ℕ) (r : Run (Shared (env.World)))
      → (run_phase hub_world ctx phase (anonymous (some fn) ∷ []) r).1
        ≡ (run_hook hub_world ctx fn r).1
  unfolding run_phase
  single_hook phase fn r = go (run_hook hub_world ctx fn r)
    where
      go :
          (v : Option Err × Run (Shared (env.World)))
          → (and_then hub_world
              (blame hub_world phase 0 (anonymous (some fn)) v)
              (λ x. (none, x))).1
            ≡ v.1
      go (none, x) = refl
      go (some e, x) = refl

  -- `Destroy` of the module with its cleanup revokes the contract.
  destroy-revokes :
      (s : List (ℕ × Value)) (w : env.World)
      → find t s ≡ some hub
      → (destroy hub_world ctx (at s w (0 ∷ []) running)).1
        ≡ at (erase t s) (shutdown types t bus defaults ctx w).1 [] destroyed
  unfolding destroy apply_all call_hub_hook call_hub_cleanup erase
  destroy-revokes s w f =
      rw (revoke-found s hub f) (single_hook after_destroy 1 (at (erase t s) w [] destroyed))

  -- Without a cleanup it does not.
  destroy-keeps :
      (s : List (ℕ × Value)) (w : env.World)
      → (destroy hub_world ctx (at s w [] running)).1
        ≡ at s (shutdown types t bus defaults ctx w).1 [] destroyed
  unfolding destroy apply_all call_hub_hook
  destroy-keeps s w = single_hook after_destroy 1 (at s w [] destroyed)

  init-duplicate :
      (s : List (ℕ × Value)) (w : env.World)
      → is_nil_impl (types.kind t) hub ≡ false
      → find t s ≡ some hub
      → let v = init hub_world ctx (at s w [] destroyed) in
        (is_err? v.0 duplicate_provider ≡ true) × (v.1 ≡ at s w [] failed)
  unfolding init apply_all call_hub_hook is_err
  init-duplicate s w n f = rw (provide-taken s hub n f) (refl, refl)

  abbrev pub starts : Run (Shared (env.World)) → Option Err × Run (Shared (env.World))
  starts = init hub_world ctx

  abbrev pub stops : Run (Shared (env.World)) → Option Err × Run (Shared (env.World))
  stops = destroy hub_world ctx

  -- The services behind a call.
  abbrev pub registry_of : Option Err × Run (Shared (env.World)) → Option Registry
  registry_of v = v.1.world.registry

  -- A new hub module, under a context that is never done, with a hub that is a pointer and not nil
  -- and a registry in which its contract is free: the first start publishes the hub and the first
  -- stop takes it back. The second start publishes it again, but the second stop leaves it in the
  -- registry, and the third start fails with ErrDuplicateProvider.
  pub starts-stops :
      (s : List (ℕ × Value)) (w : env.World)
      → types.kind t ≡ pointer
      → hub.is_nil ≡ false
      → find t s ≡ none
      → let up = starts (at s w (0 ∷ []) created) in
        let down = stops up.1 in
        let again = starts down.1 in
        let kept = stops again.1 in
        let third = starts kept.1 in
        (up.0 ≡ none)
        × (registry_of up ≡ some (record { services = store t hub s }))
        × (registry_of down ≡ some (record { services = s }))
        × (again.0 ≡ none)
        × (registry_of kept ≡ some (record { services = store t hub s }))
        × (is_err? third.0 duplicate_provider ≡ true)
        × (third.1.base.state ≡ failed)
  starts-stops s w k n f =
      rw (up, down, again, kept)
        (
          refl,
          refl,
          refl,
          refl,
          refl,
          third.0,
          ap (λ (r : Run (Shared (env.World))). r.base.state) third.1,
        )
    where
      w1 : env.World
      w1 = (shutdown types t bus defaults ctx w).1

      w2 : env.World
      w2 = (shutdown types t bus defaults ctx w1).1

      free : is_nil_impl (types.kind t) hub ≡ false
      free = not_nil k n

      published : find t (store t hub s) ≡ some hub
      published = find-store t t hub s ∙ ground arith

      up : starts (at s w (0 ∷ []) created) ≡ (none, at (store t hub s) w (0 ∷ []) running)
      up = init-up s w (0 ∷ []) free f

      down : (stops (at (store t hub s) w (0 ∷ []) running)).1 ≡ at s w1 [] destroyed
      down =
          destroy-revokes (store t hub s) w published
          ∙ ap (λ l. at l w1 [] destroyed) (erase-store t hub s f)

      again : starts (at s w1 [] destroyed) ≡ (none, at (store t hub s) w1 [] running)
      again = init-again s w1 [] free f

      kept : (stops (at (store t hub s) w1 [] running)).1 ≡ at (store t hub s) w2 [] destroyed
      kept = destroy-keeps (store t hub s) w1

      third :
          let v = starts (at (store t hub s) w2 [] destroyed) in
          (is_err? v.0 duplicate_provider ≡ true) × (v.1 ≡ at (store t hub s) w2 [] failed)
      third = init-duplicate (store t hub s) w2 free published

  -- The rollback of a start that finds the contract taken revokes it: another provider's entry.
  init-evicts :
      (s : List (ℕ × Value)) (w : env.World) (v : Value)
      → is_nil_impl (types.kind t) hub ≡ false
      → find t s ≡ some v
      → let r = init hub_world ctx (at s w (0 ∷ []) created) in
        (is_err? r.0 duplicate_provider ≡ true) × (r.1 ≡ at (erase t s) w [] failed)
  unfolding init apply_all call_hub_hook call_hub_cleanup is_err erase
  init-evicts s w v n f = rw (provide-taken s v n f, revoke-found s v f) (refl, refl)

  -- Where another hub is published already, the start of a new hub module, under a context that is
  -- never done and with a hub that is a pointer and not nil, fails with ErrDuplicateProvider, and
  -- its rollback takes the other hub out of the registry, and nothing else.
  pub starts-revoke :
      (s : List (ℕ × Value)) (w : env.World) (v : Value)
      → types.kind t ≡ pointer
      → hub.is_nil ≡ false
      → find t s ≡ some v
      → IsMap s
      → let r = starts (at s w (0 ∷ []) created) in
        (is_err? r.0 duplicate_provider ≡ true)
        × (r.1.base.state ≡ failed)
        × (registry_of r ≡ some (record { services = erase t s }))
        × ((u : ℕ) → find u (erase t s) ≡ ite (ℕ_discrete t u) none (find u s))
  starts-revoke s w v k n f m =
      let (e, r) = init-evicts s w v (not_nil k n) f in
      (
        e,
        ap (λ (r : Run (Shared (env.World))). r.base.state) r,
        ap (λ (r : Run (Shared (env.World))). r.world.registry) r,
        λ u. find-erase t u s m,
      )
