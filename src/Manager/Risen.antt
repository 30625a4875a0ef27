-- ===== src/Manager/Risen.antt =====
-- `Start` where every module that is not started can be started: all of them are up.
use appmod.Common.{
  Name, List, [], ◌∷◌, none, some, Bool, false, true, count, count-perm, ◌≡◌, sym, ap, arith,
  Occurs, subst,
}
use appmod.Errors.{sentinel, already_started}
use appmod.Base.Environment.{Ctx}
use appmod.Manager.Defs.{Nodes, starting, keys}
use appmod.Manager.Counting.{IsMap}
use appmod.Manager.Plan.{plan, Planned, layers_of}
use appmod.Manager.Layers.{concat, IsLayered, plan-IsLayered}
use appmod.Manager.Modules.{Modules}
use appmod.Manager.Teardown.{At}
use appmod.Manager.Startup.{
  can_start, begin_start, begin_idle, start_begun, start_planned, inject_each, inject_context,
  start,
}
use appmod.Manager.Rising.{Rises, Waiting, start_layers-Raised}

module _ (mods : Modules) (ctx : Ctx) (ns : Nodes) (k : Rises mods ctx ns) where
  open mods use {World}
  open k use {R}

  inject_each-R :
      (rest : Nodes) (started : List Name) (w : World)
      → R started w
      → R started (inject_each mods rest w)
  unfolding inject_each
  inject_each-R [] started w h = h
  inject_each-R ((x, n) ∷ rest) started w h =
      inject_each-R rest started _ (k.injected started w n.handle h)

  -- All the modules are up, each once.
  pub record AllRisen (s' : At mods) : Type 0 where
    pub ready : R s'.manager.started s'.world
    pub nodes : s'.manager.nodes ≡ ns
    pub counts : (d : Name) → count d s'.manager.started ≡ count d (keys ns)

  -- A manager with nothing started, whose modules can all be started, and whose modules have a plan.
  pub start-AllRisen :
      (s : At mods) (ls : List (List Name))
      → s.manager.nodes ≡ ns
      → IsMap s.manager.nodes
      → can_start s.manager.state ≡ true
      → s.manager.started ≡ []
      → plan s.manager.nodes ≡ layers_of ls
      → R [] s.world
      → let r = start mods ctx s in (r.0 ≡ none) × AllRisen r.1
  unfolding start start_begun begin_start begin_idle start_planned inject_context
  start-AllRisen s ls n is_map c e p h = go (can_start s.manager.state) c
    where
      all : Waiting mods ctx ns k (concat ls) []
      all d =
          let c = count-perm d (plan-IsLayered s.manager.nodes ls is_map p).1 in
          ((λ o. subst (λ m. Occurs d (keys m)) n (omega (arith, c))), omega (arith, c, is_map d))

      begun : At mods
      begun = record s { manager = record (s.manager) { state = starting } }

      planned :
          (q : Planned)
          → q ≡ layers_of ls
          → let r = start_planned mods ctx q begun in (r.0 ≡ none) × AllRisen r.1
      planned q e' =
          subst (λ t. let r = start_planned mods ctx t begun in (r.0 ≡ none) × AllRisen r.1)
            (sym e')
            (let (z, u) =
                start_layers-Raised mods ctx ns k ls [] _
                  (record {
                    nodes = n;
                    waiting = subst (Waiting mods ctx ns k (concat ls)) (sym e) all;
                    ready = inject_each-R s.manager.nodes _ _ (subst (λ l. R l s.world) (sym e) h);
                  })
                  (subst (λ m. IsLayered m [] ls) n (plan-IsLayered s.manager.nodes ls is_map p).2)
                  (λ d. ap (count d) e) in
              (
                z,
                record {
                  ready = u.ready;
                  nodes = u.nodes;
                  counts = λ d. omega (
                    arith,
                    u.counts d,
                    ap (count d) e,
                    count-perm d (plan-IsLayered s.manager.nodes ls is_map p).1,
                    ap (λ m. count d (keys m)) n,
                  );
                },
              ))

      idle :
          (l : List Name)
          → l ≡ []
          → let r = start_begun mods ctx s.world (begin_idle l s.manager) in
            (r.0 ≡ none) × AllRisen r.1
      idle [] e' = planned (plan s.manager.nodes) p
      idle (x ∷ xs) e' = cc

      go :
          (b : Bool)
          → b ≡ true
          → let r = start_begun mods ctx s.world (elim b [
            | false ↦ (some (sentinel already_started), s.manager)
            | true ↦ begin_idle s.manager.started s.manager
          ]) in
            (r.0 ≡ none) × AllRisen r.1
      go true b = idle s.manager.started e
      go false b = cc

  pub start-none :
      (s : At mods) (ls : List (List Name))
      → s.manager.nodes ≡ ns
      → IsMap s.manager.nodes
      → can_start s.manager.state ≡ true
      → s.manager.started ≡ []
      → plan s.manager.nodes ≡ layers_of ls
      → R [] s.world
      → (start mods ctx s).0 ≡ none
  start-none s ls n is_map c e p h = (start-AllRisen s ls n is_map c e p h).0
