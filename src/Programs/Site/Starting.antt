-- ===== src/Programs/Site/Starting.antt =====
-- examples/manager/main.go: the modules come up, in whatever order the scheduler takes each layer.
use appmod.Common.{
  ℕ, Name, name_discrete, Bool, true, false, Option, none, some, List, [], ◌∷◌, ◌++◌, count, ◌≡◌,
  refl, sym, ap, ap₂, ◌∙◌, Occurs, subst, inl, inr,
}
use appmod.Base.Defs.{State, created, running}
use appmod.Base.Environment.{Ctx}
use appmod.Base.Lifecycle.{init}
use appmod.Manager.Defs.{Node, find_node}
use appmod.App.{World, base_modules, leave_module, put_base}
use appmod.App.Running.{put-same, put-other}
use appmod.Programs.Site.{Shared}
use appmod.Programs.Site.Parts.{
  Outside, site, site_env, db_name, worker_name, cache_name, api_name, config_name,
}
use appmod.Programs.Started.{is_up, is_up-apart, is_up-same, is_up-dep, is_up_self, is_up-other}
use appmod.Programs.Site.Graph.{
  site_nodes, config_node, db_node, worker_node, cache_node, api_node, apart,
}
use appmod.Programs.Site.States.{
  part, rising_with, init-config, init-db, init-worker, init-cache, init-api,
}

abbrev pub state_of : Bool → State
state_of true = running
state_of false = created

module _ (out : Outside) (open_ended : (c : ℕ) (w : Shared) → out.ctx_err c w ≡ none) where
  -- The program while it starts, with the modules `started` up.
  pub record Rising (started : List Name) (w : World (site out)) : Type 0 where
    pub shared :
        w.outer
        ≡ rising_with
            (is_up db_name started)
            (is_up worker_name started)
            (is_up cache_name started)
            (is_up api_name started)
    pub base :
        (x : Name) (n : Node)
        → find_node x site_nodes ≡ some n
        → (c : Option ℕ) × (w.base n.handle ≡ part n.handle c (state_of (is_up x started)))
    -- A module is up only with its dependencies.
    pub cache_after : is_up db_name started ≡ false → is_up cache_name started ≡ false
    pub api_after : is_up cache_name started ≡ false → is_up api_name started ≡ false

  -- A module comes up, and the others stay as they are.
  came_up :
      (ctx : Ctx) (started : List Name) (w : World (site out)) (x : Name) (n : Node) (v v' : Shared)
      (c : Option ℕ)
      → Rising started w
      → find_node x site_nodes ≡ some n
      → w.outer ≡ v
      → w.base n.handle ≡ part n.handle c created
      → init (site_env out) ctx (record { world = v; base = part n.handle c created })
        ≡ (none, record { world = v'; base = part n.handle c running })
      → (v'
          ≡ rising_with
              (is_up db_name (started ++ x ∷ []))
              (is_up worker_name (started ++ x ∷ []))
              (is_up cache_name (started ++ x ∷ []))
              (is_up api_name (started ++ x ∷ [])))
      → (is_up db_name (started ++ x ∷ []) ≡ false → is_up cache_name (started ++ x ∷ []) ≡ false)
      → (is_up cache_name (started ++ x ∷ []) ≡ false → is_up api_name (started ++ x ∷ []) ≡ false)
      → let r = (base_modules (site out)).init_module n.handle ctx w in
        (r.0 ≡ none) × Rising (started ++ x ∷ []) r.1
  came_up ctx started w x n v v' c r f o b e same ca aa =
      subst
        (λ q.
          let r = leave_module (site out) n.handle w q in
          (r.0 ≡ none) × Rising (started ++ x ∷ []) r.1)
        (sym (ap₂ (λ u k. init (site_env out) ctx (record { world = u; base = k })) o b ∙ e))
        (
          refl,
          record {
            shared = same;
            base = λ y m g. elim (apart x y n m f g) [
              | inl (p, q) ↦ (c, here y m p q)
              | inr (p, q) ↦
                  let (c', z) = r.base y m g in
                  (
                    c',
                    put-other (site out) n.handle m.handle _ w.base q
                        ∙ z
                        ∙ ap (λ k. part m.handle c' (state_of k)) (sym (is_up-other x y started p)),
                  )
            ];
            cache_after = ca;
            api_after = aa;
          },
        )
    where
      here :
          (y : Name) (m : Node)
          → y ≡ x
          → m ≡ n
          → put_base (site out) n.handle (part n.handle c running) w.base m.handle
            ≡ part m.handle c (state_of (is_up y (started ++ x ∷ [])))
      here y m p q =
          subst
            (λ (k : Node).
              put_base (site out) n.handle (part n.handle c running) w.base k.handle
              ≡ part k.handle c (state_of (is_up y (started ++ x ∷ []))))
            (sym q)
            (put-same (site out) n.handle (part n.handle c running) w.base
              ∙ ap (λ k. part n.handle c (state_of k))
                  (sym (ap (λ z. is_up z (started ++ x ∷ [])) p ∙ is_up_self x started)))

  -- The module was made, and nothing else.
  fresh_base :
      (started : List Name) (w : World (site out)) (x : Name) (n : Node)
      → Rising started w
      → find_node x site_nodes ≡ some n
      → count x started ≡ 0
      → (c : Option ℕ) × (w.base n.handle ≡ part n.handle c created)
  fresh_base started w x n r f z =
      let (c, e) = r.base x n f in
      (c, e ∙ ap (λ k. part n.handle c (state_of k)) (is_up-same x started z))

  same_rising :
      {db worker cache api db' worker' cache' api' : Bool}
      → db ≡ db'
      → worker ≡ worker'
      → cache ≡ cache'
      → api ≡ api'
      → rising_with db worker cache api ≡ rising_with db' worker' cache' api'
  same_rising p q r s = λ i. rising_with (p i) (q i) (r i) (s i)

  pub config-came_up :
      (ctx : Ctx) (started : List Name) (w : World (site out))
      → Rising started w
      → count config_name started ≡ 0
      → let r = (base_modules (site out)).init_module 0 ctx w in
        (r.0 ≡ none) × Rising (started ++ config_name ∷ []) r.1
  unfolding find_node name_discrete
  config-came_up ctx started w r z =
      let up = is_up-apart config_name in
      let (c, b) = fresh_base started w config_name config_node r refl z in
      came_up ctx started w config_name config_node w.outer w.outer c r refl refl b
        (init-config out open_ended ctx c w.outer)
        (r.shared
          ∙ sym (
              same_rising (up db_name started refl) (up worker_name started refl)
                (up cache_name started refl) (up api_name started refl)))
        (λ e. up cache_name started refl ∙ r.cache_after (sym (up db_name started refl) ∙ e))
        (λ e. up api_name started refl ∙ r.api_after (sym (up cache_name started refl) ∙ e))

  pub db-came_up :
      (ctx : Ctx) (started : List Name) (w : World (site out))
      → Rising started w
      → count db_name started ≡ 0
      → let r = (base_modules (site out)).init_module 1 ctx w in
        (r.0 ≡ none) × Rising (started ++ db_name ∷ []) r.1
  unfolding find_node name_discrete
  db-came_up ctx started w r z =
      let up = is_up-apart db_name in
      let no_db = is_up-same db_name started z in
      let no_cache = r.cache_after no_db in
      let no_api = r.api_after no_cache in
      let (c, b) = fresh_base started w db_name db_node r refl z in
      came_up ctx started w db_name db_node
        (rising_with false (is_up worker_name started) false false)
        (rising_with true (is_up worker_name started) false false) c r refl
        (r.shared ∙ same_rising no_db refl no_cache no_api) b
        (init-db out open_ended ctx c (is_up worker_name started))
        (sym (
          same_rising (is_up_self db_name started) (up worker_name started refl)
            (up cache_name started refl ∙ no_cache) (up api_name started refl ∙ no_api)))
        (λ e. up cache_name started refl ∙ no_cache) (λ e. up api_name started refl ∙ no_api)

  pub worker-came_up :
      (ctx : Ctx) (started : List Name) (w : World (site out))
      → Rising started w
      → count worker_name started ≡ 0
      → let r = (base_modules (site out)).init_module 2 ctx w in
        (r.0 ≡ none) × Rising (started ++ worker_name ∷ []) r.1
  unfolding find_node name_discrete
  worker-came_up ctx started w r z =
      let up = is_up-apart worker_name in
      let (c, b) = fresh_base started w worker_name worker_node r refl z in
      let at = λ (k : Bool).
        rising_with (is_up db_name started) k (is_up cache_name started) (is_up api_name started) in
      came_up ctx started w worker_name worker_node (at false) (at true) c r refl
        (r.shared ∙ ap at (is_up-same worker_name started z)) b
        (init-worker out open_ended ctx c (is_up db_name started) (is_up cache_name started)
          (is_up api_name started))
        (sym (
          same_rising (up db_name started refl) (is_up_self worker_name started)
            (up cache_name started refl) (up api_name started refl)))
        (λ e. up cache_name started refl ∙ r.cache_after (sym (up db_name started refl) ∙ e))
        (λ e. up api_name started refl ∙ r.api_after (sym (up cache_name started refl) ∙ e))

  pub cache-came_up :
      (ctx : Ctx) (started : List Name) (w : World (site out))
      → Rising started w
      → count cache_name started ≡ 0
      → Occurs db_name started
      → let r = (base_modules (site out)).init_module 3 ctx w in
        (r.0 ≡ none) × Rising (started ++ cache_name ∷ []) r.1
  unfolding find_node name_discrete
  cache-came_up ctx started w r z o =
      let up = is_up-apart cache_name in
      let db = is_up-dep db_name started o in
      let no_cache = is_up-same cache_name started z in
      let no_api = r.api_after no_cache in
      let (c, b) = fresh_base started w cache_name cache_node r refl z in
      came_up ctx started w cache_name cache_node
        (rising_with true (is_up worker_name started) false false)
        (rising_with true (is_up worker_name started) true false) c r refl
        (r.shared ∙ same_rising db refl no_cache no_api) b
        (init-cache out open_ended ctx c (is_up worker_name started))
        (sym (
          same_rising (up db_name started refl ∙ db) (up worker_name started refl)
            (is_up_self cache_name started) (up api_name started refl ∙ no_api)))
        (λ e. cc (up db_name started refl ∙ db, e)) (λ e. up api_name started refl ∙ no_api)

  pub api-came_up :
      (ctx : Ctx) (started : List Name) (w : World (site out))
      → Rising started w
      → count api_name started ≡ 0
      → Occurs db_name started
      → Occurs cache_name started
      → let r = (base_modules (site out)).init_module 4 ctx w in
        (r.0 ≡ none) × Rising (started ++ api_name ∷ []) r.1
  unfolding find_node name_discrete
  api-came_up ctx started w r z o o' =
      let up = is_up-apart api_name in
      let db = is_up-dep db_name started o in
      let cache = is_up-dep cache_name started o' in
      let (c, b) = fresh_base started w api_name api_node r refl z in
      came_up ctx started w api_name api_node
        (rising_with true (is_up worker_name started) true false)
        (rising_with true (is_up worker_name started) true true) c r refl
        (r.shared ∙ same_rising db refl cache (is_up-same api_name started z)) b
        (init-api out open_ended ctx c (is_up worker_name started))
        (sym (
          same_rising (up db_name started refl ∙ db) (up worker_name started refl)
            (up cache_name started refl ∙ cache) (is_up_self api_name started)))
        (λ e. cc (up db_name started refl ∙ db, e))
        (λ e. cc (up cache_name started refl ∙ cache, e))
