-- ===== src/App/Running.antt =====
-- In every history of an application, the modules that its manager calls started are running.
use appmod.Common.{
  ℕ, ◌≤◌, ℕ_discrete, Name, name_discrete, List, [], ◌∷◌, ◌++◌, Option, none, some, true, count,
  ◌≡◌, refl, sym, ap, ◌∙◌, arith, Occurs, count-append, subst, ◌⊎◌, inl, inr,
}
use mathlib.Core.Option.{some-injective}
use appmod.Common.Counts.{zero_or_pos}
use appmod.Errors.{Err}
use appmod.Base.Defs.{Base, running, set_app_context}
use appmod.Base.Environment.{Ctx}
use appmod.Base.Lifecycle.{Run, destroy, can_init}
use appmod.Base.Outcomes.{Inited, init-Inited}
use appmod.Manager.Defs.{Node, Nodes, find_node}
use appmod.Manager.Teardown.{without}
use appmod.Manager.StopLayers.{IsDistinct, count-without}
use appmod.Manager.Keeping.{Keeps, up_if}
use appmod.App.{Rest, World, base_modules, enter_module, leave_module, put_base}

module _ (rest : Rest) where
  open rest use {env}

  -- Every started name is registered once with a module of its own, which is running.
  pub record AllUp (ns : Nodes) (started : List Name) (w : World rest) : Type 0 where
    pub distinct : IsDistinct started
    pub up :
        (x : Name)
        → Occurs x started
        → (n : Node) × (find_node x ns ≡ some n) × ((w.base n.handle).state ≡ running)
    pub apart :
        (x y : Name) (n m : Node)
        → Occurs x started
        → Occurs y started
        → find_node x ns ≡ some n
        → find_node y ns ≡ some m
        → n.handle ≡ m.handle
        → x ≡ y

  pub no_module : (w : World rest) → AllUp [] [] w
  no_module w = record {
    distinct = λ d. omega arith;
    up = λ x o. absurd (omega arith);
    apart = λ x y n m o p. absurd (omega arith);
  }

  -- The state of a started module.
  pub up_state :
      (ns : Nodes) (started : List Name) (w : World rest) (x : Name) (n : Node)
      → AllUp ns started w
      → Occurs x started
      → find_node x ns ≡ some n
      → (w.base n.handle).state ≡ running
  up_state ns started w x n a o f =
      let (m, g, s) = a.up x o in
      subst (λ (k : Node). (w.base k.handle).state ≡ running) (some-injective _ _ (sym g ∙ f)) s

  -- The started modules are left alone.
  pub same_up :
      (ns : Nodes) (started : List Name) (w w' : World rest)
      → AllUp ns started w
      → ((x : Name) (n : Node)
          → Occurs x started
          → find_node x ns ≡ some n
          → (w'.base n.handle).state ≡ running)
      → AllUp ns started w'
  same_up ns started w w' a h = record {
    distinct = a.distinct;
    up = λ x o. let (n, f, s) = a.up x o in (n, f, h x n o f);
    apart = a.apart;
  }

  pub put-same : (h : ℕ) (b : Base) (f : ℕ → Base) → put_base rest h b f h ≡ b
  put-same h b f = ground arith

  pub put-other : (h i : ℕ) (b : Base) (f : ℕ → Base) → ¬ (i ≡ h) → put_base rest h b f i ≡ f i
  put-other h i b f e = ground arith

  -- A module's fields are replaced by others in the same state, or it is not started.
  pub put-AllUp :
      (ns : Nodes) (started : List Name) (w : World rest) (o : env.World) (h : ℕ) (b : Base)
      → AllUp ns started w
      → ((b.state ≡ (w.base h).state) ⊎ ¬ ((w.base h).state ≡ running))
      → AllUp ns started (record { outer = o; base = put_base rest h b w.base })
  put-AllUp ns started w o h b a c = same_up ns started w _ a λ x n u f.
      elim (ℕ_discrete n.handle h) [
        | no e ↦
            ap (λ (k : Base). k.state) (put-other h n.handle b w.base e)
            ∙ up_state ns started w x n a u f
        | yes e ↦
            let s = subst (λ i. (w.base i).state ≡ running) e (up_state ns started w x n a u f) in
            subst (λ i. (put_base rest h b w.base i).state ≡ running) (sym e)
              (ap (λ (k : Base). k.state) (put-same h b w.base)
                ∙ elim c [ inl p ↦ p ∙ s | inr p ↦ absurd (p s) ])
      ]

  not_running : (b : Base) → can_init b.state ≡ true → ¬ (b.state ≡ running)
  not_running b e p = cc (ap can_init p)

  pub either :
      (d x : Name) (started : List Name) → Occurs d (started ++ x ∷ []) → (d ≡ x) ⊎ Occurs d started
  either d x started o = elim (name_discrete d x) [
    | yes e ↦ inl e
    | no e ↦ inr (ground (arith, count-append d started (x ∷ [])))
  ]

  -- `Init` of a module that could be started, which is running now.
  init-up-AllUp :
      (ns : Nodes) (started : List Name) (w : World rest) (x : Name) (n : Node) (o : env.World)
      (b : Base)
      → AllUp ns started w
      → find_node x ns ≡ some n
      → ¬ ((w.base n.handle).state ≡ running)
      → b.state ≡ running
      → AllUp ns (started ++ x ∷ []) (record { outer = o; base = put_base rest n.handle b w.base })
  init-up-AllUp ns started w x n o b a f c s = record {
    distinct = λ d. elim (name_discrete d x) [
      | yes e ↦ once d e
      | no e ↦ ground (arith, count-append d started (x ∷ []), a.distinct d)
    ];
    up = λ d u. elim (either d x started u) [
      | inl e ↦ (n, ap (λ z. find_node z ns) e ∙ f, here n.handle refl)
      | inr v ↦ let (m, g, r) = a.up d v in (m, g, still m.handle r)
    ];
    apart = λ d e m k u v g h q. elim (either d x started u) [
      | inl p ↦ elim (either e x started v) [
        | inl r ↦ p ∙ sym r
        | inr r ↦ absurd (c (shares m k (same_node d m g p) q (up_state ns started w e k a r h)))
      ]
      | inr p ↦ elim (either e x started v) [
        | inl r ↦
            absurd (c (shares k m (same_node e k h r) (sym q) (up_state ns started w d m a p g)))
        | inr r ↦ a.apart d e m k p r g h q
      ]
    ];
  }
    where
      fresh : count x started ≡ 0
      fresh = elim (zero_or_pos (count x started)) [
        | inl e ↦ e
        | inr e ↦ absurd (c (up_state ns started w x n a e f))
      ]

      once : (d : Name) → d ≡ x → count d (started ++ x ∷ []) ≤ 1
      once d e = ground (arith, count-append d started (x ∷ []), ap (λ z. count z started) e, fresh)

      here : (i : ℕ) → i ≡ n.handle → (put_base rest n.handle b w.base i).state ≡ running
      here i e = ground arith

      still :
          (i : ℕ) → (w.base i).state ≡ running → (put_base rest n.handle b w.base i).state ≡ running
      still i r = ground arith

      same_node : (d : Name) (m : Node) → find_node d ns ≡ some m → d ≡ x → n ≡ m
      same_node d m g p = some-injective _ _ (sym f ∙ ap (λ z. find_node z ns) (sym p) ∙ g)

      shares :
          (m k : Node)
          → n ≡ m
          → m.handle ≡ k.handle
          → (w.base k.handle).state ≡ running
          → (w.base n.handle).state ≡ running
      shares m k p q r =
          subst (λ i. (w.base i).state ≡ running) (sym (ap (λ (z : Node). z.handle) p ∙ q)) r

  -- `Init` through the store, on each of its branches.
  pub leave-AllUp :
      (ns : Nodes) (started : List Name) (w : World rest) (x : Name) (n : Node) (ctx : Ctx)
      → AllUp ns started w
      → find_node x ns ≡ some n
      → (v : Option Err × Run (env.World)) → Inited env ctx (enter_module rest n.handle w) v.0 v.1
      → let r = leave_module rest n.handle w v in AllUp ns (up_if r.0 x started) r.1
  leave-AllUp ns started w x n ctx a f (some e, r) (Inited.refused c p q) =
      put-AllUp ns started w r.world n.handle r.base a
        (inl (ap (λ (k : Run (env.World)). k.base.state) q))
  leave-AllUp ns started w x n ctx a f (none, r) (Inited.refused c p q) = cc
  leave-AllUp ns started w x n ctx a f (some e, r) (Inited.up c p q) = cc
  leave-AllUp ns started w x n ctx a f (none, r) (Inited.up c p q) =
      init-up-AllUp ns started w x n r.world r.base a f (not_running (w.base n.handle) c) q
  leave-AllUp ns started w x n ctx a f (some e, r) (Inited.down e' c p q) =
      put-AllUp ns started w r.world n.handle r.base a (inr (not_running (w.base n.handle) c))
  leave-AllUp ns started w x n ctx a f (none, r) (Inited.down e' c p q) = cc

  -- The teardown of a started module leaves the others running.
  pub destroy-AllUp :
      (ns : Nodes) (started : List Name) (w : World rest) (x : Name) (n : Node)
      (v : Option Err × Run (env.World))
      → AllUp ns started w
      → find_node x ns ≡ some n
      → Occurs x started
      → AllUp ns (without x started) (leave_module rest n.handle w v).1
  destroy-AllUp ns started w x n (e, r) a f o = record {
    distinct = λ d. ground (arith, count-without d x started, a.distinct d);
    up = λ d u.
        let (m, g, s) = a.up d (kept d u) in
        (
          m,
          g,
          ap (λ (k : Base). k.state)
                (put-other n.handle m.handle r.base w.base
                  (λ p. differs d u (a.apart d x m n (kept d u) o g f p)))
              ∙ s,
        );
    apart = λ d e m k u v. a.apart d e m k (kept d u) (kept e v);
  }
    where
      kept : (d : Name) → Occurs d (without x started) → Occurs d started
      kept d u = ground (arith, count-without d x started)

      differs : (d : Name) → Occurs d (without x started) → ¬ (d ≡ x)
      differs d u p = ground (arith, count-without d x started)

  -- A new name is not started.
  pub added-AllUp :
      (ns : Nodes) (started : List Name) (w : World rest) (x : Name) (n : Node)
      → AllUp ns started w
      → find_node x ns ≡ none
      → AllUp ((x, n) ∷ ns) started w
  unfolding find_node
  added-AllUp ns started w x n a f = record {
    distinct = a.distinct;
    up = λ d u. let (m, g, s) = a.up d u in (m, other d u ∙ g, s);
    apart = λ d e m k u v g h. a.apart d e m k u v (sym (other d u) ∙ g) (sym (other e v) ∙ h);
  }
    where
      other : (d : Name) → Occurs d started → find_node d ((x, n) ∷ ns) ≡ find_node d ns
      other d u = elim (name_discrete d x) [
        | no e ↦ ground arith
        | yes e ↦ let (m, g, s) = a.up d u in cc (f, g, ap (λ z. find_node z ns) e)
      ]

  -- What the modules keep.
  unfoldable pub running_modules : Keeps (base_modules rest)
  unfolding find_node set_app_context
  running_modules = record {
    P = AllUp;
    distinct = λ ns started w a. a.distinct;
    added = added-AllUp;
    inits = λ ns started w x n ctx a f b.
        leave-AllUp ns started w x n ctx a f _ (init-Inited env ctx (enter_module rest n.handle w));
    destroys = λ ns started w x n ctx a f o.
        destroy-AllUp ns started w x n (destroy env ctx (enter_module rest n.handle w)) a f o;
    injects = λ ns started w h a. put-AllUp ns started w w.outer h _ a (inl refl);
    checks = λ ns started w h ctx a.
        same_up ns started w _ a (λ x n o f. up_state ns started w x n a o f);
    ends = λ ns started w a. same_up ns started w _ a (λ x n o f. up_state ns started w x n a o f);
    awaits =
        λ ns started w ctx a. same_up ns started w _ a (λ x n o f. up_state ns started w x n a o f);
  }
