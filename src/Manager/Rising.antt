-- ===== src/Manager/Rising.antt =====
-- The layers of a start, where every module that is not started can be started.
use appmod.Common.{
  All, ℕ, ◌+◌, ◌≤◌, Name, List, [], ◌∷◌, ◌++◌, Option, none, some, count, count-append, count-perm,
  ◌≡◌, refl, sym, ap, ◌∙◌, arith, Occurs, subst, inl, inr,
}
use appmod.Errors.{Err}
use appmod.Base.Environment.{Ctx}
use appmod.Manager.Defs.{Node, Nodes, find_node, keys, set_state}
use appmod.Manager.Known.{find_node_cases}
use appmod.Manager.Keeping.{Backed}
use appmod.Manager.Layers.{concat, DepsIn, IsLayered}
use appmod.Common.Counts.{All-Occurs}
use appmod.Manager.Modules.{Modules, context_err}
use appmod.Manager.Teardown.{At}
use appmod.Manager.Startup.{
  start_layers, start_layer, or_abort, start_each, start_node, started_or_failed,
}

-- What is claimed of the started modules and the world, so that each of the others can be started.
pub record Rises (mods : Modules) (ctx : Ctx) (ns : Nodes) : Type 1 where
  pub R : List Name → mods.World → Type 0
  pub open_ended : (w : mods.World) → context_err mods ctx w ≡ none
  pub comes_up :
      (started : List Name) (w : mods.World) (x : Name) (n : Node)
      → R started w
      → find_node x ns ≡ some n
      → count x started ≡ 0
      → ((d : Name) → Occurs d n.deps → Occurs d started)
      → let r = mods.init_module n.handle ctx w in (r.0 ≡ none) × R (started ++ x ∷ []) r.1
  pub injected :
      (started : List Name) (w : mods.World) (h : ℕ) → R started w → R started (mods.inject h w)

module _ (mods : Modules) (ctx : Ctx) (ns : Nodes) (k : Rises mods ctx ns) where
  open mods use {World, arrange, arrange-perm}
  open k use {R}

  -- The modules `xs` are registered, and are not started yet.
  abbrev pub Waiting : List Name → List Name → Type 0
  Waiting xs started =
      (d : Name) → (Occurs d xs → Occurs d (keys ns)) × (count d xs + count d started ≤ 1)

  pub record Queued (xs : List Name) (s : At mods) : Type 0 where
    pub nodes : s.manager.nodes ≡ ns
    pub waiting : Waiting xs s.manager.started
    pub ready : R s.manager.started s.world

  -- The modules `xs` came up, and `ys` wait.
  record Rose (xs ys : List Name) (s : At mods) (errs : List Err) (s' : At mods) : Type 0 where
    clean : errs ≡ []
    queued : Queued ys s'
    counts : (d : Name) → count d s'.manager.started ≡ count d s.manager.started + count d xs

  start_node-Rose :
      (x : Name) (xs : List Name) (s : At mods)
      → Queued (x ∷ xs) s
      → Backed ns (x ∷ []) s.manager.started
      → let r = start_node mods ctx x (find_node x s.manager.nodes) s in Rose (x ∷ []) xs s r.0 r.1
  unfolding start_node
  start_node-Rose x xs s v b = elim (find_node_cases x ns) [
    | inl (p, q) ↦ absurd (ground (arith, (v.waiting x).0))
    | inr (n, p, q) ↦
        subst (λ o. let r = start_node mods ctx x o s in Rose (x ∷ []) xs s r.0 r.1)
          (sym (ap (find_node x) v.nodes ∙ p))
          (go (mods.init_module n.handle ctx s.world) (
            k.comes_up s.manager.started s.world x n v.ready p (ground (arith, (v.waiting x).1))
              (b x n (ground arith) p)))
  ]
    where
      later : Waiting xs (s.manager.started ++ x ∷ [])
      later d = (
        (λ o. (v.waiting d).0 (ground arith)),
        ground (arith, (v.waiting d).1, count-append d s.manager.started (x ∷ [])),
      )

      go :
          (r : Option Err × World)
          → (r.0 ≡ none) × R (s.manager.started ++ x ∷ []) r.1
          → let w = started_or_failed mods x r s.manager in Rose (x ∷ []) xs s w.0 w.1
      go (some e, w) (e', u) = cc
      go (none, w) (e, u) =
          unfold started_or_failed in
          record {
            clean = refl;
            queued = record { nodes = v.nodes; waiting = later; ready = u };
            counts = λ d. count-append d s.manager.started (x ∷ []);
          }

  start_each-Rose :
      (xs ys : List Name) (s : At mods)
      → Queued (xs ++ ys) s
      → Backed ns xs s.manager.started
      → let r = start_each mods ctx xs s in Rose xs ys s r.0 r.1
  unfolding start_each
  start_each-Rose [] ys s v b = record { clean = refl; queued = v; counts = λ d. omega arith }
  start_each-Rose (x ∷ xs) ys s v b =
      let s1 = (start_node mods ctx x (find_node x s.manager.nodes) s).1 in
      let t = start_node-Rose x (xs ++ ys) s v (λ y n o. b y n (omega arith)) in
      let t' =
        start_each-Rose xs ys s1 t.queued
          (λ y n o f d u. omega (arith, t.counts d, b y n (omega arith) f d u)) in
      record {
        clean = rw (t.clean) t'.clean;
        queued = t'.queued;
        counts = λ d. omega (arith, t.counts d, t'.counts d);
      }

  arranged :
      (l rest : List Name) (s : At mods)
      → Queued (l ++ rest) s
      → Queued (arrange s.world l ++ rest) s
  arranged l rest s v = record { nodes = v.nodes; waiting = moved; ready = v.ready }
    where
      moved : Waiting (arrange s.world l ++ rest) s.manager.started
      moved d =
          let c = count-perm d (arrange-perm s.world l) in
          (
            (λ o.
                (v.waiting d).0 (
                  omega
                    (arith, c, count-append d l rest, count-append d (arrange s.world l) rest))),
            omega (
              arith,
              c,
              (v.waiting d).1,
              count-append d l rest,
              count-append d (arrange s.world l) rest,
            ),
          )

  -- A layer of a plan, in the order in which its modules are started.
  layer-Backed :
      (l placed : List Name) (s : At mods)
      → All (DepsIn ns placed) l
      → ((d : Name) → count d s.manager.started ≡ count d placed)
      → Backed ns (arrange s.world l) s.manager.started
  layer-Backed l placed s a c x n o f d u = omega (
    arith,
    c d,
    All-Occurs (λ z. Occurs z placed) n.deps d
        (All-Occurs (DepsIn ns placed) l x a
          (omega (arith, o, count-perm x (arrange-perm s.world l))) n f)
        u,
  )

  -- The system in which the modules `xs` more than before are up, and no others.
  pub record Raised (xs started : List Name) (s' : At mods) : Type 0 where
    pub ready : R s'.manager.started s'.world
    pub nodes : s'.manager.nodes ≡ ns
    pub counts : (d : Name) → count d s'.manager.started ≡ count d started + count d xs

  pub start_layers-Raised :
      (ls : List (List Name)) (placed : List Name) (s : At mods)
      → Queued (concat ls) s
      → IsLayered ns placed ls
      → ((d : Name) → count d s.manager.started ≡ count d placed)
      → let r = start_layers mods ctx ls s in
        (r.0 ≡ none) × Raised (concat ls) s.manager.started r.1
  unfolding start_layers or_abort start_layer set_state
  start_layers-Raised [] placed s v i c =
      (refl, record { ready = v.ready; nodes = v.nodes; counts = λ d. omega arith })
  start_layers-Raised (l ∷ ls) placed s v (a, sorted, i) c =
      let t =
        start_each-Rose (arrange s.world l) (concat ls) s (arranged l (concat ls) s v)
          (layer-Backed l placed s a c) in
      let (e, u) = start_layers-Raised ls (placed ++ l) _ t.queued i (λ d.
        omega (
          arith,
          t.counts d,
          c d,
          count-append d placed l,
          count-perm d (arrange-perm s.world l),
        )) in
      rw (k.open_ended s.world, t.clean)
        (
          e,
          record {
            ready = u.ready;
            nodes = u.nodes;
            counts = λ d. omega (
              arith,
              u.counts d,
              t.counts d,
              count-append d l (concat ls),
              count-perm d (arrange-perm s.world l),
            );
          },
        )
