-- ===== src/App/Orphans.antt =====
-- A module that runs though the manager has forgotten it: `Stop` forgets a module whose
-- BeforeDestroy hooks failed, and such a module stays running.
use appmod.Common.{
  ℕ, ℕ_discrete, Name, name_discrete, List, ◌∷◌, Option, none, some, true, ◌≡◌, refl, sym, ap, ◌∙◌,
  arith, Occurs, count-perm, ◌⊎◌, inl, inr, subst, ◌≢◌,
}
use mathlib.Core.Option.{some-injective}
use appmod.Errors.{Err}
use appmod.Base.Defs.{Base, running, set_app_context}
use appmod.Base.Environment.{Ctx}
use appmod.Base.Lifecycle.{Run, destroy, can_init}
use appmod.Base.Outcomes.{Inited, init-Inited}
use appmod.Manager.Defs.{Node, Nodes, Manager, find_node}
use appmod.Manager.Teardown.{At, without, stop_node}
use appmod.Manager.Soundness.{IsSound}
use appmod.Manager.StopLayers.{count-without}
use appmod.Manager.Startup.{start}
use appmod.Manager.Starting.{Launched}
use appmod.Manager.Launching.{Answered, start-Answered}
use appmod.Manager.Keeping.{Keeps, up_if}
use appmod.Manager.Invariance.{start-Holds}
use appmod.App.{Rest, World, base_modules, enter_module, leave_module, put_base}
use appmod.App.Running.{
  AllUp, added-AllUp, leave-AllUp, destroy-AllUp, put-AllUp, running_modules, put-same, put-other,
  either,
}
use appmod.App.History.{find_node-Occurs}

module _ (rest : Rest) (h : ℕ) where
  open rest use {env}

  -- The module `h` is running, and no name that is started stands for it.
  pub record IsOrphan (ns : Nodes) (started : List Name) (w : World rest) : Type 0 where
    pub all_up : AllUp rest ns started w
    pub runs : (w.base h).state ≡ running
    pub others :
        (x : Name) (n : Node) → Occurs x started → find_node x ns ≡ some n → ¬ (n.handle ≡ h)

  -- The fields of another module are replaced, or those of `h` by some in the same state.
  put-runs :
      (w : World rest) (i : ℕ) (b : Base)
      → (w.base h).state ≡ running
      → (¬ (i ≡ h)) ⊎ (b.state ≡ running)
      → (put_base rest i b w.base h).state ≡ running
  put-runs w i b r c = elim (ℕ_discrete h i) [
    | no e ↦ ap (λ (k : Base). k.state) (put-other rest i h b w.base e) ∙ r
    | yes e ↦ elim c [
      | inl p ↦ absurd (p (sym e))
      | inr p ↦
          subst (λ j. (put_base rest i b w.base j).state ≡ running) (sym e)
            (ap (λ (k : Base). k.state) (put-same rest i b w.base) ∙ p)
    ]
  ]

  -- A module that could be started is not `h`.
  could_start :
      (w : World rest) (i : ℕ)
      → (w.base h).state ≡ running
      → can_init (w.base i).state ≡ true
      → ¬ (i ≡ h)
  could_start w i r c e = cc (ap can_init r, ap (λ j. can_init (w.base j).state) e)

  -- The fields of a module are replaced by some in the same state.
  same_or_other :
      (w : World rest) (i : ℕ) (b : Base)
      → (w.base h).state ≡ running
      → b.state ≡ (w.base i).state
      → (¬ (i ≡ h)) ⊎ (b.state ≡ running)
  same_or_other w i b r e = elim (ℕ_discrete i h) [
    | no d ↦ inl d
    | yes d ↦ inr (e ∙ ap (λ j. (w.base j).state) d ∙ r)
  ]

  leave-IsOrphan :
      (ns : Nodes) (started : List Name) (w : World rest) (x : Name) (n : Node) (ctx : Ctx)
      → IsOrphan ns started w
      → find_node x ns ≡ some n
      → (v : Option Err × Run (env.World)) → Inited env ctx (enter_module rest n.handle w) v.0 v.1
      → let r = leave_module rest n.handle w v in IsOrphan ns (up_if r.0 x started) r.1
  leave-IsOrphan ns started w x n ctx a f (e, r) i = record {
    all_up = leave-AllUp rest ns started w x n ctx a.all_up f (e, r) i;
    runs = put-runs w n.handle r.base a.runs (spared i);
    others = names e i;
  }
    where
      spared :
          {res : Option Err}
          → Inited env ctx (enter_module rest n.handle w) res r
          → (¬ (n.handle ≡ h)) ⊎ (r.base.state ≡ running)
      spared (Inited.refused c p q) =
          same_or_other w n.handle r.base a.runs (ap (λ (k : Run (env.World)). k.base.state) q)
      spared (Inited.up c p q) = inr q
      spared (Inited.down e' c p q) = inl (could_start w n.handle a.runs c)

      names :
          (res : Option Err)
          → Inited env ctx (enter_module rest n.handle w) res r
          → (y : Name) (m : Node) → Occurs y (up_if res x started)
          → find_node y ns ≡ some m
          → ¬ (m.handle ≡ h)
      names (some e') i y m o g = a.others y m o g
      names none (Inited.refused c p q) y m o g = cc
      names none (Inited.down e' c p q) y m o g = cc
      names none (Inited.up c p q) y m o g = elim (either rest y x started o) [
        | inr u ↦ a.others y m u g
        | inl d ↦
            subst (λ (k : Node). ¬ (k.handle ≡ h))
              (some-injective _ _ (sym f ∙ ap (λ z. find_node z ns) (sym d) ∙ g))
              (could_start w n.handle a.runs c)
      ]

  still : (y x : Name) (started : List Name) → Occurs y (without x started) → Occurs y started
  still y x started u = ground (arith, count-without y x started)

  -- The world changes, but no state.
  same_states :
      (ns : Nodes) (started : List Name) (w w' : World rest)
      → AllUp rest ns started w'
      → (w'.base h).state ≡ (w.base h).state
      → IsOrphan ns started w
      → IsOrphan ns started w'
  same_states ns started w w' u e a = record { all_up = u; runs = e ∙ a.runs; others = a.others }

  added_to :
      (ns : Nodes) (started : List Name) (w : World rest) (x : Name) (n : Node) (y : Name)
      (m : Node)
      → IsOrphan ns started w
      → find_node x ns ≡ none
      → Occurs y started
      → find_node y ((x, n) ∷ ns) ≡ some m
      → find_node y ns ≡ some m
  unfolding find_node
  added_to ns started w x n y m a f o g = elim (name_discrete y x) [
    | no e ↦ ground arith
    | yes e ↦ let (k, q, s) = a.all_up.up y o in cc (f, q, ap (λ z. find_node z ns) e)
  ]

  unfoldable orphan_modules : Keeps (base_modules rest)
  unfolding running_modules set_app_context find_node
  orphan_modules = record {
    P = IsOrphan;
    distinct = λ ns started w a. a.all_up.distinct;
    added = λ ns started w x n a f. record {
      all_up = added-AllUp rest ns started w x n a.all_up f;
      runs = a.runs;
      others = λ y m o g. a.others y m o (added_to ns started w x n y m a f o g);
    };
    inits = λ ns started w x n ctx a f b.
        leave-IsOrphan ns started w x n ctx a f _
          (init-Inited env ctx (enter_module rest n.handle w));
    destroys = λ ns started w x n ctx a f o.
        let v = destroy env ctx (enter_module rest n.handle w) in
        record {
          all_up = destroy-AllUp rest ns started w x n v a.all_up f o;
          runs = put-runs w n.handle v.1.base a.runs (inl (a.others x n o f));
          others = λ y m u g. a.others y m (still y x started u) g;
        };
    injects = λ ns started w i a. record {
      all_up = put-AllUp rest ns started w w.outer i _ a.all_up (inl refl);
      runs =
          let b = set_app_context (some rest.app_ctx) (w.base i) in
          put-runs w i b a.runs (same_or_other w i b a.runs refl);
      others = a.others;
    };
    checks = λ ns started w i ctx a.
        same_states ns started w _ ((running_modules rest).checks ns started w i ctx a.all_up) refl
          a;
    ends = λ ns started w a.
        same_states ns started w _ ((running_modules rest).ends ns started w a.all_up) refl a;
    awaits = λ ns started w ctx a.
        same_states ns started w _ ((running_modules rest).awaits ns started w ctx a.all_up) refl a;
  }

  -- The teardown of a started module that fails so that the module runs on, as when one of its
  -- BeforeDestroy hooks fails, leaves it behind.
  pub stop_node-IsOrphan :
      (ctx : Ctx) (x : Name) (n : Node) (s : At (base_modules rest))
      → AllUp rest s.manager.nodes s.manager.started s.world
      → Occurs x s.manager.started
      → find_node x s.manager.nodes ≡ some n
      → n.handle ≡ h
      → (destroy env ctx (enter_module rest h s.world)).1.base.state ≡ running
      → let r = (stop_node (base_modules rest) ctx x (some n) s).1 in
        IsOrphan r.manager.nodes r.manager.started r.world
  unfolding stop_node running_modules
  stop_node-IsOrphan ctx x n s a o f e p =
      let v = destroy env ctx (enter_module rest n.handle s.world) in
      record {
        all_up = destroy-AllUp rest s.manager.nodes s.manager.started s.world x n v a f o;
        runs = here n.handle e;
        others = λ y m u g q. ground (
          arith,
          count-without y x s.manager.started,
          a.apart y x m n (still y x s.manager.started u) o g f (q ∙ sym e),
        );
      }
    where
      here :
          (i : ℕ)
          → i ≡ h
          → (put_base rest i
              (destroy env ctx (enter_module rest i s.world)).1.base
              s.world.base
              h).state
            ≡ running
      here i q =
          subst
            (λ j.
              (put_base rest j (destroy env ctx (enter_module rest j s.world)).1.base s.world.base
                h).state
              ≡ running)
            (sym q) (ap (λ (b : Base). b.state) (put-same rest h _ s.world.base) ∙ p)

  -- For a manager in the state of some operation's end whose started modules are running: a
  -- registered module that runs, too, with no started name standing for it, is such a one after
  -- each `Start`, and `Start` does not return nil.
  pub start-IsOrphan :
      (ctx : Ctx) (s : At (base_modules rest)) (x : Name) (n : Node)
      → IsSound s.manager
      → IsOrphan s.manager.nodes s.manager.started s.world
      → find_node x s.manager.nodes ≡ some n
      → n.handle ≡ h
      → let r = start (base_modules rest) ctx s in
        (r.0 ≢ none) × IsOrphan r.1.manager.nodes r.1.manager.started r.1.world
  unfolding orphan_modules
  start-IsOrphan ctx s x n v a f e =
      let r = start (base_modules rest) ctx s in
      let b = start-Holds (base_modules rest) orphan_modules ctx s v.is_map a in
      (refuse r.0 r.1 (start-Answered (base_modules rest) ctx s v.is_map) b, b)
    where
      refuse :
          (res : Option Err) (s' : At (base_modules rest))
          → Answered (base_modules rest) ctx s res s'
          → IsOrphan s'.manager.nodes s'.manager.started s'.world
          → res ≢ none
      refuse res s' (Answered.busy b c d) u q = cc
      refuse res s' (Answered.left_over b c d g) u q = cc
      refuse res s' (Answered.unplanned e' b c d g k) u q = cc
      refuse res s' (Answered.launched ls b c d (Launched.down e' tried s1 r g k i l m n o p t)) u
            q =
          l q
      refuse res s' (Answered.launched ls b c d (Launched.up names g m k l i j)) u q =
          u.others x n
            (subst (Occurs x) (sym (ap (λ (k : Manager). k.started) m))
              (omega (arith, count-perm x k, find_node-Occurs x s.manager.nodes n f)))
            (ap (λ (k : Manager). find_node x k.nodes) m ∙ f) e
