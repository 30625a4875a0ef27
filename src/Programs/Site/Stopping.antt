-- ===== src/Programs/Site/Stopping.antt =====
-- examples/manager/main.go: the modules go down, in whatever order the scheduler takes each layer.
use appmod.Common.{
  ℕ, Name, name_discrete, Bool, true, false, Option, none, some, List, ◌≡◌, refl, sym, ap, ap₂, ◌∙◌,
  Occurs, subst, inl, inr,
}
use appmod.Base.Defs.{State, running, destroyed}
use appmod.Base.Environment.{Ctx}
use appmod.Base.Lifecycle.{destroy}
use appmod.Manager.Defs.{Node, find_node}
use appmod.Manager.Teardown.{without}
use appmod.Manager.Falling.{Falls}
use appmod.App.{World, base_modules, leave_module, put_base}
use appmod.App.Running.{put-same, put-other}
use appmod.Programs.Site.{Shared}
use appmod.Programs.Site.Parts.{
  Outside, site, site_env, db_name, worker_name, cache_name, api_name, config_name,
}
use appmod.Programs.Started.{is_up, is_up-gone, is_up-left, is_up-stays, is_up-dep}
use appmod.Programs.Site.Graph.{
  site_nodes, config_node, db_node, worker_node, cache_node, api_node, apart, find_node-IsPart,
  is_config, is_db, is_worker, is_cache, is_api,
}
use appmod.Programs.Site.States.{
  part, falling_with, destroy-config, destroy-db, destroy-worker, destroy-cache, destroy-api,
}
use appmod.Programs.Site.Launching.{context-none}

abbrev pub state_while : Bool → State
state_while true = running
state_while false = destroyed

module _ (out : Outside) (open_ended : (c : ℕ) (w : Shared) → out.ctx_err c w ≡ none) where
  -- The program behind the shutdown, with the modules `started` still up.
  pub record Falling (started : List Name) (w : World (site out)) : Type 0 where
    pub shared : w.outer ≡ falling_with (is_up db_name started) (is_up worker_name started)
    pub base :
        (x : Name) (n : Node)
        → find_node x site_nodes ≡ some n
        → (c : Option ℕ) × (w.base n.handle ≡ part n.handle c (state_while (is_up x started)))

  abbrev Fell : Ctx → List Name → World (site out) → Name → Node → Type 0
  Fell ctx started w x n =
      let r = (base_modules (site out)).destroy_module n.handle ctx w in
      (r.0 ≡ none) × Falling (without x started) r.1

  -- A module goes down, and the others stay as they are.
  went_down :
      (ctx : Ctx) (started : List Name) (w : World (site out)) (x : Name) (n : Node) (v v' : Shared)
      (c : Option ℕ)
      → Falling started w
      → find_node x site_nodes ≡ some n
      → w.outer ≡ v
      → w.base n.handle ≡ part n.handle c running
      → destroy (site_env out) ctx (record { world = v; base = part n.handle c running })
        ≡ (none, record { world = v'; base = part n.handle c destroyed })
      → (v'
          ≡ falling_with
              (is_up db_name (without x started))
              (is_up worker_name (without x started)))
      → Fell ctx started w x n
  went_down ctx started w x n v v' c r f o b e same =
      subst
        (λ q.
          let r = leave_module (site out) n.handle w q in
          (r.0 ≡ none) × Falling (without x started) r.1)
        (sym (ap₂ (λ u k. destroy (site_env out) ctx (record { world = u; base = k })) o b ∙ e))
        (
          refl,
          record {
            shared = same;
            base = λ y m g. elim (apart x y n m f g) [
              | inl (p, q) ↦ (c, here y m p q)
              | inr (p, q) ↦
                  let (c', z) = r.base y m g in
                  (
                    c',
                    put-other (site out) n.handle m.handle _ w.base q
                        ∙ z
                        ∙ ap (λ k. part m.handle c' (state_while k))
                            (sym (is_up-left x y started p)),
                  )
            ];
          },
        )
    where
      here :
          (y : Name) (m : Node)
          → y ≡ x
          → m ≡ n
          → put_base (site out) n.handle (part n.handle c destroyed) w.base m.handle
            ≡ part m.handle c (state_while (is_up y (without x started)))
      here y m p q =
          subst
            (λ (k : Node).
              put_base (site out) n.handle (part n.handle c destroyed) w.base k.handle
              ≡ part k.handle c (state_while (is_up y (without x started))))
            (sym q)
            (put-same (site out) n.handle (part n.handle c destroyed) w.base
              ∙ ap (λ k. part n.handle c (state_while k))
                  (sym (ap (λ z. is_up z (without x started)) p ∙ is_up-gone x started)))

  up_base :
      (started : List Name) (w : World (site out)) (x : Name) (n : Node)
      → Falling started w
      → find_node x site_nodes ≡ some n
      → Occurs x started
      → (c : Option ℕ) × (w.base n.handle ≡ part n.handle c running)
  up_base started w x n r f o =
      let (c, e) = r.base x n f in
      (c, e ∙ ap (λ k. part n.handle c (state_while k)) (is_up-dep x started o))

  -- A module whose teardown touches nothing but itself.
  calm-went_down :
      (ctx : Ctx) (started : List Name) (w : World (site out)) (x : Name) (n : Node)
      → Falling started w
      → find_node x site_nodes ≡ some n
      → Occurs x started
      → ((c : Option ℕ) (v : Shared)
          → destroy (site_env out) ctx (record { world = v; base = part n.handle c running })
            ≡ (none, record { world = v; base = part n.handle c destroyed }))
      → is_up db_name (without x started) ≡ is_up db_name started
      → is_up worker_name (without x started) ≡ is_up worker_name started
      → Fell ctx started w x n
  calm-went_down ctx started w x n r f o d db worker =
      let (c, b) = up_base started w x n r f o in
      went_down ctx started w x n w.outer w.outer c r f refl b (d c w.outer)
        (r.shared ∙ sym (ap₂ falling_with db worker))

  db-went_down :
      (ctx : Ctx) (started : List Name) (w : World (site out))
      → Falling started w
      → Occurs db_name started
      → Fell ctx started w db_name db_node
  unfolding find_node name_discrete
  db-went_down ctx started w r o =
      let (c, b) = up_base started w db_name db_node r refl o in
      let worker = is_up worker_name started in
      went_down ctx started w db_name db_node (falling_with true worker) (falling_with false worker)
        c r refl (r.shared ∙ ap (λ k. falling_with k worker) (is_up-dep db_name started o)) b
        (destroy-db out open_ended ctx c worker)
        (sym (
          ap₂ falling_with (is_up-gone db_name started)
            (is_up-stays db_name worker_name started refl)))

  worker-went_down :
      (ctx : Ctx) (started : List Name) (w : World (site out))
      → Falling started w
      → Occurs worker_name started
      → Fell ctx started w worker_name worker_node
  unfolding find_node name_discrete
  worker-went_down ctx started w r o =
      let (c, b) = up_base started w worker_name worker_node r refl o in
      let db = is_up db_name started in
      went_down ctx started w worker_name worker_node (falling_with db true) (falling_with db false)
        c r refl (r.shared ∙ ap (falling_with db) (is_up-dep worker_name started o)) b
        (destroy-worker out open_ended ctx c db)
        (sym (
          ap₂ falling_with (is_up-stays worker_name db_name started refl)
            (is_up-gone worker_name started)))

  -- Every module that is up goes down.
  pub goes_down :
      (ctx : Ctx) (started : List Name) (w : World (site out)) (x : Name) (n : Node)
      → Falling started w
      → find_node x site_nodes ≡ some n
      → Occurs x started
      → Fell ctx started w x n
  unfolding find_node name_discrete
  goes_down ctx started w x n r f o = elim (find_node-IsPart x n f) [
    | is_config e q ↦ at e q (
        calm-went_down ctx started w config_name config_node r refl (up e)
          (destroy-config out open_ended ctx) (is_up-stays config_name db_name started refl)
          (is_up-stays config_name worker_name started refl))
    | is_db e q ↦ at e q (db-went_down ctx started w r (up e))
    | is_worker e q ↦ at e q (worker-went_down ctx started w r (up e))
    | is_cache e q ↦ at e q (
        calm-went_down ctx started w cache_name cache_node r refl (up e)
          (destroy-cache out open_ended ctx) (is_up-stays cache_name db_name started refl)
          (is_up-stays cache_name worker_name started refl))
    | is_api e q ↦ at e q (
        calm-went_down ctx started w api_name api_node r refl (up e)
          (destroy-api out open_ended ctx) (is_up-stays api_name db_name started refl)
          (is_up-stays api_name worker_name started refl))
  ]
    where
      up : {y : Name} → x ≡ y → Occurs y started
      up e = subst (λ z. Occurs z started) e o

      at : {y : Name} {m : Node} → x ≡ y → n ≡ m → Fell ctx started w y m → Fell ctx started w x n
      at e q h = subst (λ (k : Name × Node). Fell ctx started w k.0 k.1) (sym (λ i. (e i, q i))) h

  abbrev pub site_falls : (ctx : Ctx) → Falls (base_modules (site out)) ctx site_nodes
  site_falls ctx = record {
    S = Falling;
    open_ended = context-none out open_ended ctx;
    goes_down = goes_down ctx;
  }
