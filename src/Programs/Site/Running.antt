-- ===== src/Programs/Site/Running.antt =====
-- examples/manager/main.go: `main`, from the registration of the modules to the end of `Run`.
use appmod.Common.{
  ℕ, ℤ, Name, name_discrete, Bool, true, false, Option, none, some, List, [], ◌∷◌, count, ◌≡◌, refl,
  sym, ap, ap₂, ◌∙◌, arith, Occurs, subst, inl, inr,
}
use appmod.Errors.{Err}
use appmod.Base.Defs.{Base, State, created}
use appmod.Base.Environment.{Ctx}
use appmod.Manager.Defs.{Node, Manager, find_node, keys}
use appmod.Manager.Known.{find_node_cases}
use appmod.Manager.Plan.{plan, layers_of}
use appmod.Manager.Counting.{IsMap}
use appmod.Manager.Teardown.{At}
use appmod.Manager.Startup.{start}
use appmod.Manager.Stopping.{WellFormed}
use appmod.Manager.Risen.{AllRisen, start-AllRisen}
use appmod.Manager.Falling.{stop-none}
use appmod.Manager.Running.{run, wait_and_stop, or_wait, describe_timeout}
use appmod.App.{World, base_modules}
use appmod.Programs.Site.{
  Shared, providing_db, warmed, providing_cache, drained, read_first, second_not_found,
  cache_contract, cache_value, first_user, alice,
}
use appmod.Programs.Site.Parts.{
  Outside, site, parts, main_manager, db_name, worker_name, cache_name, api_name, config_name,
}
use appmod.Programs.Started.{is_up}
use appmod.Programs.Site.Graph.{
  site_nodes, fresh_manager, main_manager-some, find_node-IsPart, is_config, is_db, is_worker,
  is_cache, is_api,
}
use appmod.Programs.Site.States.{part, rising_with, falling_with}
use appmod.Programs.Site.Starting.{Rising, state_of}
use appmod.Programs.Site.Launching.{site_rises}
use appmod.Programs.Site.Stopping.{Falling, site_falls, state_while}

-- The contexts are never done before the teardown is, and go-shutdown closes the `Done` channel in
-- `End` at the latest, and returns nil where its hook does.
pub record IsDocumented (out : Outside) : Type 0 where
  pub open_ended : (c : ℕ) (w : Shared) → out.ctx_err c w ≡ none
  pub ends : (w : Shared) → out.end_shutdown w ≡ record w { shut_down = true }
  pub awaits :
      (ctx : Ctx) (w : Shared)
      → (b : Bool) × (out.await_shutdown ctx w ≡ record w { shut_down = b })
  pub passes : (w : Shared) → out.wait_result none w ≡ none

-- The program before it starts.
abbrev pub at_first : (out : Outside) → World (site out)
at_first out = record { outer = rising_with false false false false; base = parts }

site-IsMap : IsMap site_nodes
site-IsMap d = ground arith

abbrev site_layers : List (List Name)
site_layers =
    (config_name ∷ []) ∷ (db_name ∷ worker_name ∷ []) ∷ (cache_name ∷ []) ∷ (api_name ∷ []) ∷ []

plan-site : plan site_nodes ≡ layers_of site_layers
unfolding plan find_node name_discrete
plan-site = refl

module _ (out : Outside) (doc : IsDocumented out) where
  open doc use {open_ended}

  -- The modules of `main` are stopped, the services of the db module are revoked and those of the
  -- cache are not, the goroutine of the worker closed its channel once, and no hook waited for more.
  pub record Finished (s : At (base_modules (site out))) : Type 0 where
    pub stopped : s.manager.started ≡ []
    pub destroyed :
        (x : Name) (n : Node)
        → find_node x site_nodes ≡ some n
        → (s.world.base n.handle).state ≡ State.destroyed
    pub registry :
        s.world.outer.registry ≡ some (record { services = (cache_contract, cache_value) ∷ [] })
    pub cached : s.world.outer.store ≡ (first_user, alice) ∷ []
    pub closes : s.world.outer.closes ≡ 1
    pub workers : s.world.outer.workers ≡ 0
    pub free : s.world.outer.stuck ≡ false
    pub output :
        s.world.outer.output
        ≡ providing_db
          ∷ warmed alice
          ∷ providing_cache
          ∷ read_first alice
          ∷ second_not_found
          ∷ drained
          ∷ []

  fresh_part :
      (x : Name) (n : Node)
      → find_node x site_nodes ≡ some n
      → parts n.handle ≡ part n.handle none created
  unfolding parts
  fresh_part x n f = elim (find_node-IsPart x n f) [
    | is_config e q ↦ subst (λ (k : Node). parts k.handle ≡ part k.handle none created) (sym q) refl
    | is_db e q ↦ subst (λ (k : Node). parts k.handle ≡ part k.handle none created) (sym q) refl
    | is_worker e q ↦ subst (λ (k : Node). parts k.handle ≡ part k.handle none created) (sym q) refl
    | is_cache e q ↦ subst (λ (k : Node). parts k.handle ≡ part k.handle none created) (sym q) refl
    | is_api e q ↦ subst (λ (k : Node). parts k.handle ≡ part k.handle none created) (sym q) refl
  ]

  first-Rising : Rising out open_ended [] (at_first out)
  first-Rising = record {
    shared = refl;
    base = λ x n f. (none, fresh_part x n f);
    cache_after = λ e. refl;
    api_after = λ e. refl;
  }

  registered : (x : Name) (n : Node) → find_node x site_nodes ≡ some n → Occurs x (keys site_nodes)
  registered x n f = elim (find_node_cases x site_nodes) [ inl (p, q) ↦ cc | inr (m, p, o) ↦ o ]

  -- All the modules are up.
  up_once :
      (x : Name) (started : List Name)
      → count x started ≡ count x (keys site_nodes)
      → Occurs x (keys site_nodes)
      → is_up x started ≡ true
  up_once x started c o = ground (arith, c, o)

  -- The shutdown begins: `Done` is closed, and the modules are still up.
  shut-Falling :
      (ctx : Ctx) (s : At (base_modules (site out)))
      → AllRisen (base_modules (site out)) ctx site_nodes (site_rises out open_ended ctx) s
      → Falling out open_ended s.manager.started
          (record (s.world) { outer = out.end_shutdown (out.await_shutdown ctx s.world.outer) })
  unfolding name_discrete
  shut-Falling ctx s u = record {
    shared =
        doc.ends (out.await_shutdown ctx s.world.outer)
        ∙ ap (λ (w : Shared). record w { shut_down = true })
            ((doc.awaits ctx s.world.outer).1
              ∙ ap (λ (w : Shared). record w { shut_down = (doc.awaits ctx s.world.outer).0 })
                  all_up)
        ∙ sym (ap₂ falling_with (up db_name (ground arith)) (up worker_name (ground arith)));
    base = λ x n f.
        let (c, e) = u.ready.base x n f in
        (c, e ∙ ap (part n.handle c) (same (up x (registered x n f))));
  }
    where
      same : {b : Bool} → b ≡ true → state_of b ≡ state_while b
      same e = ap state_of e ∙ sym (ap state_while e)

      up : (x : Name) → Occurs x (keys site_nodes) → is_up x s.manager.started ≡ true
      up x o = up_once x s.manager.started (u.counts x) o

      all_up : s.world.outer ≡ rising_with true true true true
      all_up = u.ready.shared ∙ (λ i.
          rising_with (up db_name (ground arith) i) (up worker_name (ground arith) i)
            (up cache_name (ground arith) i) (up api_name (ground arith) i))

  -- The modules are down.
  fallen-Finished :
      (s : At (base_modules (site out)))
      → s.manager.started ≡ []
      → Falling out open_ended [] s.world
      → Finished s
  fallen-Finished s e u = record {
    stopped = e;
    destroyed = λ x n f. ap (λ (b : Base). b.state) (u.base x n f).1;
    registry = ap (λ (w : Shared). w.registry) u.shared;
    cached = ap (λ (w : Shared). w.store) u.shared;
    closes = ap (λ (w : Shared). w.closes) u.shared;
    workers = ap (λ (w : Shared). w.workers) u.shared;
    free = ap (λ (w : Shared). w.stuck) u.shared;
    output = ap (λ (w : Shared). w.output) u.shared;
  }

  nothing_said :
      (res : Option Err) (w : Shared) (names : List Name)
      → res ≡ none
      → describe_timeout (out.wait_result res w) names ≡ none
  unfolding describe_timeout
  nothing_said res w names e = rw (e, doc.passes w) refl

  wait_and_stop-Finished :
      (ctx : Ctx) (s : At (base_modules (site out)))
      → AllRisen (base_modules (site out)) ctx site_nodes (site_rises out open_ended ctx) s
      → let r = wait_and_stop (base_modules (site out)) ctx s in (r.0 ≡ none) × Finished r.1
  unfolding wait_and_stop describe_timeout
  wait_and_stop-Finished ctx s u =
      let w = record (s.world) { outer = out.await_shutdown ctx s.world.outer } in
      let c = out.teardown_ctx ctx w.outer in
      let (e, z, v) =
        stop-none (base_modules (site out)) c site_nodes (site_falls out open_ended c)
          (record s { world = w }) u.nodes well (shut-Falling ctx s u) in
      (nothing_said _ _ _ e, fallen-Finished _ z v)
    where
      well : WellFormed s.manager
      well = record {
        registered =
            λ d o. subst (λ m. Occurs d (keys m)) (sym u.nodes) (omega (arith, o, u.counts d));
        distinct = λ d. omega (arith, u.counts d, site-IsMap d);
      }

  -- If the contexts are never done before the teardown is, `End` of go-shutdown closes the `Done`
  -- channel, nothing else of the program runs while `Wait` waits, and `Wait` returns nil where its
  -- hook does, then in every order in which the scheduler lets the goroutines of a layer finish
  -- `main` panics nowhere and `Run` returns nil. Every module comes up and is destroyed; api reads
  -- user:1 from the warmed cache and finds no user:2; the worker is drained without a hook that
  -- blocks, its channel closed once; and of the contracts only that of the cache stays published.
  pub run-Finished :
      (ctx : Ctx) (logger : ℕ) (seconds : ℤ)
      → (m : Manager) × (main_manager logger seconds ≡ some m)
        × (let r =
              run (base_modules (site out)) ctx (record { world = at_first out; manager = m }) in
            (r.0 ≡ none) × Finished r.1)
  unfolding run
  run-Finished ctx logger seconds = (
    fresh_manager logger seconds,
    main_manager-some logger seconds,
    go (start (base_modules (site out)) ctx claimed) (
        start-AllRisen (base_modules (site out)) ctx site_nodes (site_rises out open_ended ctx)
          claimed site_layers refl site-IsMap refl refl plan-site first-Rising),
  )
    where
      claimed : At (base_modules (site out))
      claimed = record {
        world = at_first out;
        manager = record (fresh_manager logger seconds) { ran = true };
      }

      go :
          (r : Option Err × At (base_modules (site out)))
          → (r.0 ≡ none)
            × AllRisen (base_modules (site out)) ctx site_nodes (site_rises out open_ended ctx) r.1
          → let v = or_wait (base_modules (site out)) ctx r in (v.0 ≡ none) × Finished v.1
      go (none, s) (e, u) = wait_and_stop-Finished ctx s u
      go (some x, s) (e, u) = cc
