-- ===== src/Programs/Site/Launching.antt =====
-- examples/manager/main.go: `Start` brings all the modules up.
use appmod.Common.{
  ℕ, ℕ_discrete, Name, none, some, List, [], ◌∷◌, ◌++◌, count, ◌≡◌, refl, sym, ap, ◌∙◌, arith,
  Occurs, subst,
}
use appmod.Base.Defs.{set_app_context}
use appmod.Base.Environment.{Ctx, given, detached}
use appmod.Manager.Defs.{Node, find_node}
use appmod.Manager.Rising.{Rises}
use appmod.Manager.Modules.{context_err}
use appmod.App.{World, base_modules, put_base}
use appmod.App.Running.{put-same, put-other}
use appmod.Programs.Site.{Shared}
use appmod.Programs.Site.Parts.{Outside, site, db_name, cache_name}
use appmod.Programs.Site.Graph.{
  site_nodes, find_node-IsPart, is_config, is_db, is_worker, is_cache, is_api,
}
use appmod.Programs.Site.Starting.{
  Rising, config-came_up, db-came_up, worker-came_up, cache-came_up, api-came_up,
}

module _ (out : Outside) (open_ended : (c : ℕ) (w : Shared) → out.ctx_err c w ≡ none) where
  -- A module that is not started, and whose dependencies are, comes up.
  pub comes_up :
      (ctx : Ctx) (started : List Name) (w : World (site out)) (x : Name) (n : Node)
      → Rising out open_ended started w
      → find_node x site_nodes ≡ some n
      → count x started ≡ 0
      → ((d : Name) → Occurs d n.deps → Occurs d started)
      → let r = (base_modules (site out)).init_module n.handle ctx w in
        (r.0 ≡ none) × Rising out open_ended (started ++ x ∷ []) r.1
  comes_up ctx started w x n r f z d = elim (find_node-IsPart x n f) [
    | is_config e q ↦ at e q (config-came_up out open_ended ctx started w r (fresh e))
    | is_db e q ↦ at e q (db-came_up out open_ended ctx started w r (fresh e))
    | is_worker e q ↦ at e q (worker-came_up out open_ended ctx started w r (fresh e))
    | is_cache e q ↦
        at e q
          (cache-came_up out open_ended ctx started w r (fresh e) (dep q db_name (ground arith)))
    | is_api e q ↦ at e q (
        api-came_up out open_ended ctx started w r (fresh e) (dep q db_name (ground arith))
          (dep q cache_name (ground arith)))
  ]
    where
      fresh : {y : Name} → x ≡ y → count y started ≡ 0
      fresh e = ap (λ k. count k started) (sym e) ∙ z

      dep : {m : Node} → n ≡ m → (y : Name) → Occurs y m.deps → Occurs y started
      dep q y o = d y (subst (λ (k : Node). Occurs y k.deps) (sym q) o)

      at :
          {y : Name} {m : Node}
          → x ≡ y
          → n ≡ m
          → (let r = (base_modules (site out)).init_module m.handle ctx w in
              (r.0 ≡ none) × Rising out open_ended (started ++ y ∷ []) r.1)
          → let r = (base_modules (site out)).init_module n.handle ctx w in
            (r.0 ≡ none) × Rising out open_ended (started ++ x ∷ []) r.1
      at e q h =
          subst
            (λ (k : Name × Node).
              let r = (base_modules (site out)).init_module (k.1).handle ctx w in
              (r.0 ≡ none) × Rising out open_ended (started ++ k.0 ∷ []) r.1)
            (sym (λ i. (e i, q i))) h

  -- The context is injected into any module.
  pub given_context :
      (started : List Name) (w : World (site out)) (h : ℕ)
      → Rising out open_ended started w
      → Rising out open_ended started ((base_modules (site out)).inject h w)
  unfolding set_app_context
  given_context started w h r = record {
    shared = r.shared;
    base = λ y m g.
        let (c, e) = r.base y m g in
        elim (ℕ_discrete m.handle h) [
          | yes q ↦ (
            some 0,
            ap (put_base (site out) h _ w.base) q
                ∙ put-same (site out) h _ w.base
                ∙ ap (λ i. set_app_context (some 0) (w.base i)) (sym q)
                ∙ ap (set_app_context (some 0)) e,
          )
          | no q ↦ (c, put-other (site out) h m.handle _ w.base q ∙ e)
        ];
    cache_after = r.cache_after;
    api_after = r.api_after;
  }

  pub context-none :
      (ctx : Ctx) (w : World (site out)) → context_err (base_modules (site out)) ctx w ≡ none
  context-none (given c) w = open_ended c w.outer
  context-none (detached c) w = refl

  abbrev pub site_rises : (ctx : Ctx) → Rises (base_modules (site out)) ctx site_nodes
  site_rises ctx = record {
    R = Rising out open_ended;
    open_ended = context-none ctx;
    comes_up = comes_up ctx;
    injected = given_context;
  }
