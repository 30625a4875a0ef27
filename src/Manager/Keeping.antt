-- ===== src/Manager/Keeping.antt =====
-- Invariants that tie the started modules to the world: what the modules have to keep, so that the
-- manager keeps it in every history.
use appmod.Common.{
  ◌∙◌, ℕ, ◌+◌, ◌≤◌, Name, name_eqb, List, [], ◌∷◌, ◌++◌, Option, none, some, count, ◌≡◌, refl, sym,
  ap, arith, Occurs, count-append, count-perm, subst, Option-cases, inl, inr, if◌then◌else◌,
}
use appmod.Errors.{Err}
use appmod.Base.Environment.{Ctx}
use appmod.Manager.Defs.{Node, Nodes, find_node}
use appmod.Manager.Layers.{concat}
use appmod.Manager.Modules.{Modules, context_err}
use appmod.Manager.Teardown.{
  At, without, stop_node, stop_each, stop_layer, stop_each_layer, stop_started, stop, stop_layers,
  announced,
}
use appmod.Manager.StopLayers.{IsDistinct, count-without, stop_layers-perm}
use appmod.Manager.Startup.{started_or_failed, start_node, start_each}

-- A name joins the started ones if `Init` returned nil.
abbrev pub up_if : Option Err → Name → List Name → List Name
up_if none x started = started ++ x ∷ []
up_if (some e) x started = started

-- The dependencies of the modules `xs` are started.
abbrev pub Backed : Nodes → List Name → List Name → Type 0
Backed ns xs started =
    (x : Name) (n : Node)
    → Occurs x xs
    → find_node x ns ≡ some n
    → (d : Name) → Occurs d n.deps
    → Occurs d started

-- What is claimed of the registered modules, the started ones and the world; the methods of the
-- modules, and go-shutdown, keep it.
pub record Keeps (mods : Modules) : Type 1 where
  pub P : Nodes → List Name → mods.World → Type 0
  pub distinct :
      (ns : Nodes) (started : List Name) (w : mods.World) → P ns started w → IsDistinct started
  pub added :
      (ns : Nodes) (started : List Name) (w : mods.World) (x : Name) (n : Node)
      → P ns started w
      → find_node x ns ≡ none
      → P ((x, n) ∷ ns) started w
  pub inits :
      (ns : Nodes) (started : List Name) (w : mods.World) (x : Name) (n : Node) (ctx : Ctx)
      → P ns started w
      → find_node x ns ≡ some n
      → ((d : Name) → Occurs d n.deps → Occurs d started)
      → let r = mods.init_module n.handle ctx w in P ns (up_if r.0 x started) r.1
  pub destroys :
      (ns : Nodes) (started : List Name) (w : mods.World) (x : Name) (n : Node) (ctx : Ctx)
      → P ns started w
      → find_node x ns ≡ some n
      → Occurs x started
      → P ns (without x started) (mods.destroy_module n.handle ctx w).1
  pub injects :
      (ns : Nodes) (started : List Name) (w : mods.World) (h : ℕ)
      → P ns started w
      → P ns started (mods.inject h w)
  pub checks :
      (ns : Nodes) (started : List Name) (w : mods.World) (h : ℕ) (ctx : Ctx)
      → P ns started w
      → P ns started (mods.health_check h ctx w).1
  pub ends :
      (ns : Nodes) (started : List Name) (w : mods.World)
      → P ns started w
      → P ns started (mods.end_shutdown w)
  pub awaits :
      (ns : Nodes) (started : List Name) (w : mods.World) (ctx : Ctx)
      → P ns started w
      → P ns started (mods.await_shutdown ctx w)

module _ (mods : Modules) (k : Keeps mods) where
  open mods use {World, arrange, arrange-perm}
  open k use {P}

  -- The claim of a manager and its world.
  abbrev pub Holds : At mods → Type 0
  Holds s = P s.manager.nodes s.manager.started s.world

  start_node-Holds :
      (ctx : Ctx) (x : Name) (o : Option Node) (s : At mods)
      → find_node x s.manager.nodes ≡ o
      → Backed s.manager.nodes (x ∷ []) s.manager.started
      → Holds s
      → Holds (start_node mods ctx x o s).1
  unfolding start_node started_or_failed
  start_node-Holds ctx x none s f b h = h
  start_node-Holds ctx x (some n) s f b h =
      go (mods.init_module n.handle ctx s.world)
        (k.inits _ _ _ x n ctx h f (b x n (ground arith) f))
    where
      go :
          (r : Option Err × World)
          → P s.manager.nodes (up_if r.0 x s.manager.started) r.1
          → Holds (started_or_failed mods x r s.manager).1
      go (none, w) u = u
      go (some e, w) u = u

  -- What stays so while a module is started.
  record Kin (s s' : At mods) : Type 0 where
    nodes : s'.manager.nodes ≡ s.manager.nodes
    more : (d : Name) → Occurs d s.manager.started → Occurs d s'.manager.started

  start_node-Kin :
      (ctx : Ctx) (x : Name) (o : Option Node) (s : At mods) → Kin s (start_node mods ctx x o s).1
  unfolding start_node started_or_failed
  start_node-Kin ctx x none s = record { nodes = refl; more = λ d o. o }
  start_node-Kin ctx x (some n) s = go (mods.init_module n.handle ctx s.world)
    where
      go : (r : Option Err × World) → Kin s (started_or_failed mods x r s.manager).1
      go (some e, w) = record { nodes = refl; more = λ d o. o }
      go (none, w) = record {
        nodes = refl;
        more = λ d o. omega (arith, o, count-append d s.manager.started (x ∷ []));
      }

  pub start_each-Holds :
      (ctx : Ctx) (xs : List Name) (s : At mods)
      → Backed s.manager.nodes xs s.manager.started
      → Holds s
      → Holds (start_each mods ctx xs s).1
  unfolding start_each
  start_each-Holds ctx [] s b h = h
  start_each-Holds ctx (x ∷ xs) s b h =
      let g = start_node-Kin ctx x (find_node x s.manager.nodes) s in
      start_each-Holds ctx xs _
        (λ y n o f d u. g.more d (b y n (omega arith) (ap (find_node y) (sym g.nodes) ∙ f) d u))
        (start_node-Holds ctx x _ s refl (λ y n o. b y n (omega arith)) h)

  -- The modules of a layer are started, each once.
  abbrev Within : List Name → List Name → Type 0
  Within xs started = (d : Name) → count d xs ≤ count d started

  -- What the teardown of one module leaves of the others.
  record Left (x : Name) (s s' : At mods) : Type 0 where
    holds : Holds s'
    counts :
        (d : Name)
        → count d s.manager.started ≤ count d s'.manager.started + (if name_eqb d x then 1 else 0)

  stop_node-Left :
      (ctx : Ctx) (x : Name) (o : Option Node) (s : At mods)
      → find_node x s.manager.nodes ≡ o
      → Occurs x s.manager.started
      → Holds s
      → Left x s (stop_node mods ctx x o s).1
  unfolding stop_node
  stop_node-Left ctx x none s f o h = record { holds = h; counts = λ d. omega arith }
  stop_node-Left ctx x (some n) s f o h = record {
    holds = k.destroys _ _ _ x n ctx h f o;
    counts = λ d. ground (arith, count-without d x s.manager.started, k.distinct _ _ _ h d);
  }

  -- The rest of a layer is still started.
  Within-rest :
      (x : Name) (xs : List Name) (s s' : At mods)
      → IsDistinct s.manager.started
      → Left x s s'
      → Within (x ∷ xs) s.manager.started
      → Within xs s'.manager.started
  Within-rest x xs s s' u l c d = ground (arith, l.counts d, c d, u d)

  -- What is behind a layer is still started when the layer is gone.
  record Gone (xs : List Name) (s s' : At mods) : Type 0 where
    holds : Holds s'
    counts : (d : Name) → count d s.manager.started ≤ count d s'.manager.started + count d xs

  stop_each-Gone :
      (ctx : Ctx) (xs : List Name) (s : At mods)
      → Within xs s.manager.started
      → Holds s
      → Gone xs s (stop_each mods ctx xs s).1
  unfolding stop_each
  stop_each-Gone ctx [] s c h = record { holds = h; counts = λ d. omega arith }
  stop_each-Gone ctx (x ∷ xs) s c h =
      let s1 = (stop_node mods ctx x (find_node x s.manager.nodes) s).1 in
      let l = stop_node-Left ctx x _ s refl (ground (arith, c x)) h in
      let g = stop_each-Gone ctx xs s1 (Within-rest x xs s s1 (k.distinct _ _ _ h) l c) l.holds in
      record { holds = g.holds; counts = λ d. ground (arith, l.counts d, g.counts d) }

  stop_each_layer-Holds :
      (ctx : Ctx) (ls : List (List Name)) (s : At mods)
      → Within (concat ls) s.manager.started
      → Holds s
      → Holds (stop_each_layer mods ctx ls s).1
  unfolding stop_each_layer stop_layer
  stop_each_layer-Holds ctx [] s c h = h
  stop_each_layer-Holds ctx (l ∷ ls) s c h = elim (Option-cases (context_err mods ctx s.world)) [
    | inr (e, q) ↦ rw (q, stop_each_layer) h
    | inl q ↦
        let xs = arrange s.world l in
        let p = arrange-perm s.world l in
        let g =
          stop_each-Gone ctx xs s
            (λ d. omega (arith, c d, count-perm d p, count-append d l (concat ls))) h in
        rw (q, stop_each_layer)
          (stop_each_layer-Holds ctx ls _
            (λ d. omega (arith, g.counts d, c d, count-perm d p, count-append d l (concat ls)))
            g.holds)
  ]

  -- `Stop` behind its announcement.
  pub stop_started-Holds :
      (ctx : Ctx) (s : At mods) → Holds s → Holds (stop_started mods ctx s.manager.started s).1
  unfolding stop_started
  stop_started-Holds ctx s h = go s.manager.started refl
    where
      go : (l : List Name) → l ≡ s.manager.started → Holds (stop_started mods ctx l s).1
      go [] e = h
      go (x ∷ xs) e =
          stop_each_layer-Holds ctx (stop_layers s.manager.nodes (x ∷ xs)) s
            (λ d. omega (
              arith,
              count-perm d (
                  stop_layers-perm s.manager.nodes (x ∷ xs)
                    (subst IsDistinct (sym e) (k.distinct _ _ _ h))),
              ap (count d) e,
            ))
            h

  pub stop-Holds : (ctx : Ctx) (s : At mods) → Holds s → Holds (stop mods ctx s).1
  unfolding stop
  stop-Holds ctx s h = stop_started-Holds ctx (announced mods s) (k.ends _ _ _ h)
