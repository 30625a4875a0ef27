-- ===== src/Manager/Falling.antt =====
-- `Stop` where every module that is started can be stopped.
use appmod.Common.{
  ◌≤◌, Name, List, [], ◌∷◌, ◌++◌, none, some, count, count-append, count-perm, ◌≡◌, refl, sym, ap,
  ◌∙◌, arith, Occurs, subst, inl, inr,
}
use appmod.Errors.{Err, join}
use appmod.Base.Environment.{Ctx}
use appmod.Manager.Defs.{Node, Nodes, find_node, keys}
use appmod.Manager.Known.{find_node_cases}
use appmod.Manager.Layers.{concat}
use appmod.Manager.Modules.{Modules, context_err}
use appmod.Manager.Teardown.{
  At, without, stop_node, stop_each, stop_layer, stop_each_layer, stop_layers, stop_started, stop,
  announced, stop_failure, in_layer_order,
}
use appmod.Manager.StopLayers.{count-without, stop_layers-perm}
use appmod.Manager.Stopping.{WellFormed}

-- What is claimed of the started modules and the world, so that each of them can be stopped.
pub record Falls (mods : Modules) (ctx : Ctx) (ns : Nodes) : Type 1 where
  pub S : List Name → mods.World → Type 0
  pub open_ended : (w : mods.World) → context_err mods ctx w ≡ none
  pub goes_down :
      (started : List Name) (w : mods.World) (x : Name) (n : Node)
      → S started w
      → find_node x ns ≡ some n
      → Occurs x started
      → let r = mods.destroy_module n.handle ctx w in (r.0 ≡ none) × S (without x started) r.1

module _ (mods : Modules) (ctx : Ctx) (ns : Nodes) (k : Falls mods ctx ns) where
  open mods use {World, arrange, arrange-perm}
  open k use {S}

  -- The modules `xs` are registered and started, each once.
  record Standing (xs : List Name) (s : At mods) : Type 0 where
    nodes : s.manager.nodes ≡ ns
    known : (d : Name) → Occurs d xs → Occurs d (keys ns)
    counts : (d : Name) → count d xs ≡ count d s.manager.started
    distinct : (d : Name) → count d xs ≤ 1
    ready : S s.manager.started s.world

  stop_node-Standing :
      (x : Name) (xs : List Name) (s : At mods)
      → Standing (x ∷ xs) s
      → let r = stop_node mods ctx x (find_node x s.manager.nodes) s in (r.0 ≡ []) × Standing xs r.1
  unfolding stop_node
  stop_node-Standing x xs s v = elim (find_node_cases x ns) [
    | inl (p, q) ↦ absurd (ground (arith, v.known x))
    | inr (n, p, q) ↦
        subst (λ o. let r = stop_node mods ctx x o s in (r.0 ≡ []) × Standing xs r.1)
          (sym (ap (find_node x) v.nodes ∙ p))
          (let (e, u) =
              k.goes_down s.manager.started s.world x n v.ready p (ground (arith, v.counts x)) in
            (
              ap (stop_failure mods x) e,
              record {
                nodes = v.nodes;
                known = λ d o. v.known d (ground arith);
                counts = λ d.
                    ground (arith, v.counts d, v.distinct d, count-without d x s.manager.started);
                distinct = λ d. ground (arith, v.distinct d);
                ready = u;
              },
            ))
  ]

  stop_each-Standing :
      (xs ys : List Name) (s : At mods)
      → Standing (xs ++ ys) s
      → let r = stop_each mods ctx xs s in (r.0 ≡ []) × Standing ys r.1
  unfolding stop_each
  stop_each-Standing [] ys s v = (refl, v)
  stop_each-Standing (x ∷ xs) ys s v =
      let (e, u) = stop_node-Standing x (xs ++ ys) s v in
      let (e', u') = stop_each-Standing xs ys _ u in (rw (e, e') refl, u')

  no_failures : (xs : List Name) → in_layer_order mods xs [] ≡ []
  no_failures [] = refl
  no_failures (x ∷ xs) = no_failures xs

  rearranged :
      (l rest : List Name) (s : At mods)
      → Standing (l ++ rest) s
      → Standing (arrange s.world l ++ rest) s
  rearranged l rest s v = record {
    nodes = v.nodes;
    known = λ d o. v.known d (omega (arith, same d));
    counts = λ d. same d ∙ v.counts d;
    distinct = λ d. omega (arith, same d, v.distinct d);
    ready = v.ready;
  }
    where
      same : (d : Name) → count d (arrange s.world l ++ rest) ≡ count d (l ++ rest)
      same d = omega (
        arith,
        count-append d l rest,
        count-append d (arrange s.world l) rest,
        count-perm d (arrange-perm s.world l),
      )

  stop_each_layer-none :
      (ls : List (List Name)) (s : At mods)
      → Standing (concat ls) s
      → let r = stop_each_layer mods ctx ls s in (r.0 ≡ []) × Standing [] r.1
  unfolding stop_each_layer stop_layer
  stop_each_layer-none [] s v = (refl, v)
  stop_each_layer-none (l ∷ ls) s v =
      let (e, u) =
        stop_each-Standing (arrange s.world l) (concat ls) s (rearranged l (concat ls) s v) in
      let (e', u') = stop_each_layer-none ls _ u in
      rw (k.open_ended s.world, stop_each_layer, e, no_failures l) (e', u')

  -- `Stop` of started modules that can all be stopped.
  pub stop-none :
      (s : At mods)
      → s.manager.nodes ≡ ns
      → WellFormed s.manager
      → S s.manager.started (announced mods s).world
      → let r = stop mods ctx s in (r.0 ≡ none) × (r.1.manager.started ≡ []) × S [] r.1.world
  unfolding stop stop_started
  stop-none s n v h = go s.manager.started refl
    where
      emptied : (l : List Name) → ((d : Name) → 0 ≡ count d l) → l ≡ []
      emptied [] c = refl
      emptied (x ∷ xs) c = absurd (ground (arith, c x))

      done :
          (r : List Err × At mods)
          → (r.0 ≡ []) × Standing [] r.1
          → (join (r.0) ≡ none) × (r.1.manager.started ≡ []) × S [] r.1.world
      done r (e, u) =
          let z = emptied r.1.manager.started u.counts in
          (ap join e, z, subst (λ l. S l r.1.world) z u.ready)

      go :
          (l : List Name)
          → l ≡ s.manager.started
          → let r = stop_started mods ctx l (announced mods s) in
            (r.0 ≡ none) × (r.1.manager.started ≡ []) × S [] r.1.world
      go [] e = (refl, sym e, subst (λ l. S l (announced mods s).world) (sym e) h)
      go (x ∷ xs) e =
          done (stop_each_layer mods ctx (stop_layers s.manager.nodes (x ∷ xs)) (announced mods s))
            (stop_each_layer-none (stop_layers s.manager.nodes (x ∷ xs)) (announced mods s)
              (record {
                nodes = n;
                known = λ d o.
                    subst (λ m. Occurs d (keys m)) n (v.registered d (omega (arith, o, same d)));
                counts = same;
                distinct = λ d. omega (arith, same d, v.distinct d);
                ready = h;
              }))
        where
          same :
              (d : Name)
              → count d (concat (stop_layers s.manager.nodes (x ∷ xs))) ≡ count d s.manager.started
          same d =
              subst
                (λ l. count d (concat (stop_layers s.manager.nodes l)) ≡ count d s.manager.started)
                (sym e)
                (count-perm d (stop_layers-perm s.manager.nodes s.manager.started v.distinct))
