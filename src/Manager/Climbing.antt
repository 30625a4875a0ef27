-- ===== src/Manager/Climbing.antt =====
-- The layers of a plan, one behind the other: when a module is started, its dependencies are.
use appmod.Common.{
  Name, List, [], ◌∷◌, ◌++◌, Option, none, some, ◌≡◌, refl, sym, ap, arith, subst, inl, inr, count,
  count-append, count-perm, Occurs,
}
use appmod.Common.Counts.{All-Occurs, zero_or_pos}
use appmod.Errors.{Err}
use appmod.Base.Environment.{Ctx}
use appmod.Manager.Defs.{Manager, set_state, running, keys}
use appmod.Manager.Counting.{IsMap}
use appmod.Manager.Plan.{plan, layers_of}
use appmod.Manager.Layers.{concat, DepsIn, IsLayered, plan-IsLayered}
use appmod.Manager.Modules.{Modules, context_err}
use appmod.Manager.Teardown.{At}
use appmod.Manager.Startup.{start_layer, start_layers, abort, or_abort}
use appmod.Manager.StartLayer.{Layer, start_layer-Layer}
use appmod.Manager.Keeping.{Backed, Keeps, Holds, start_each-Holds}

module _ (mods : Modules) (k : Keeps mods) where
  open mods use {World, arrange, arrange-perm}

  abbrev pub Kept : Option Err × At mods → Type 0
  Kept r = Holds mods k r.1

  -- The layers `ls` are to be started behind the modules `placed`.
  pub record Due (ls : List (List Name)) (placed : List Name) (s : At mods) : Type 0 where
    pub layered : IsLayered s.manager.nodes placed ls
    pub known : (d : Name) → Occurs d (concat ls) → Occurs d (keys s.manager.nodes)
    pub up : (d : Name) → Occurs d placed → Occurs d s.manager.started

  pub Due-plan :
      (ls : List (List Name)) (s : At mods)
      → IsMap s.manager.nodes
      → plan s.manager.nodes ≡ layers_of ls
      → Due ls [] s
  Due-plan ls s is_map p =
      let (closed, perm, layered) = plan-IsLayered s.manager.nodes ls is_map p in
      record {
        layered = layered;
        known = λ d o. omega (arith, o, count-perm d perm);
        up = λ d o. absurd (omega (arith, o));
      }

  Due-Backed :
      (l : List Name) (ls : List (List Name)) (placed : List Name) (s : At mods)
      → Due (l ∷ ls) placed s
      → Backed s.manager.nodes (arrange s.world l) s.manager.started
  Due-Backed l ls placed s v x n o f d u = v.up d (
      All-Occurs (λ z. Occurs z placed) n.deps d
        (All-Occurs (DepsIn s.manager.nodes placed) l x v.layered.0
          (omega (arith, o, count-perm x (arrange-perm s.world l))) n f)
        u)

  Due-next :
      (ctx : Ctx) (l : List Name) (ls : List (List Name)) (placed : List Name) (s : At mods)
      (res : Option Err) (s' : At mods)
      → Due (l ∷ ls) placed s
      → Layer mods ctx l s res s'
      → res ≡ none
      → Due ls (placed ++ l) s'
  Due-next ctx l ls placed s res s' v (Layer.some_up tried up e c r q a b t f g h i) z = cc
  Due-next ctx l ls placed s res s' v (Layer.all_up up r p q f g) z =
      let n = ap (λ (m : Manager). m.nodes) q in
      record {
        layered = subst (λ ns. IsLayered ns (placed ++ l) ls) (sym n) v.layered.2;
        known = λ d o.
            subst (λ ns. Occurs d (keys ns)) (sym n)
              (v.known d (omega (arith, o, count-append d l (concat ls))));
        up = λ d o. subst (λ (m : Manager). Occurs d m.started) (sym q) (there d o);
      }
    where
      there : (d : Name) → Occurs d (placed ++ l) → Occurs d (s.manager.started ++ up)
      there d o = elim (zero_or_pos (count d placed)) [
        | inr i ↦ omega (arith, v.up d i, count-append d s.manager.started up)
        | inl i ↦ omega (
          arith,
          o,
          i,
          count-append d placed l,
          count-perm d p,
          count-append d s.manager.started up,
        )
      ]

  -- What every end of the layers has, also that by `abort`.
  module _ (ctx : Ctx) (G : Option Err × At mods → Type 0)
      (finished : (s : At mods)
        → Holds mods k s
        → G (none, record s { manager = set_state running s.manager }))
      (aborted : (e : Err) (s : At mods) → Holds mods k s → G (abort mods ctx e s)) where
    or_abort-by :
        (r : Option Err × At mods) (f : At mods → Option Err × At mods)
        → Kept r
        → (r.0 ≡ none → G (f r.1))
        → G (or_abort mods ctx r f)
    unfolding or_abort
    or_abort-by (some e, s) f h c = aborted e s h
    or_abort-by (none, s) f h c = c refl

    pub start_layers-by :
        (ls : List (List Name)) (placed : List Name) (s : At mods)
        → Due ls placed s
        → Holds mods k s
        → G (start_layers mods ctx ls s)
    unfolding start_layers start_layer
    start_layers-by [] placed s v h = finished s h
    start_layers-by (l ∷ ls) placed s v h =
        or_abort-by (context_err mods ctx s.world, s) _ h
          λ q. or_abort-by (start_layer mods ctx l s) _ here λ z.
            start_layers-by ls (placed ++ l) _
              (Due-next ctx l ls placed s _ _ v
                (start_layer-Layer mods ctx l s
                  (λ d o. v.known d (omega (arith, o, count-append d l (concat ls)))))
                z)
              here
      where
        here : Kept (start_layer mods ctx l s)
        here = start_each-Holds mods k ctx (arrange s.world l) s (Due-Backed l ls placed s v) h
