-- ===== src/App/Settling.antt =====
-- Where no hook fails and no context is done, a module that is not counted as started is down.
use appmod.Common.{
  ℕ, ℕ_discrete, Name, name_discrete, List, [], ◌∷◌, Option, none, some, true, ◌≡◌, sym, ap, ◌∙◌,
  arith, Occurs, count-append, subst,
}
use mathlib.Core.Option.{some-injective}
use appmod.Errors.{Err}
use appmod.Base.Defs.{Base, set_app_context}
use appmod.Base.Environment.{Ctx}
use appmod.Base.Lifecycle.{Run, destroy, can_init, is_running}
use appmod.Base.Outcomes.{Inited, init-Inited}
use appmod.Base.Willing.{IsWilling, destroy-destroyed}
use appmod.Manager.Defs.{Node, Nodes, find_node}
use appmod.Manager.Teardown.{without}
use appmod.Manager.StopLayers.{count-without}
use appmod.Manager.Keeping.{Keeps, up_if}
use appmod.App.{Rest, World, base_modules, enter_module, leave_module, put_base}
use appmod.App.Running.{
  AllUp, leave-AllUp, destroy-AllUp, running_modules, put-same, put-other, up_state,
}

module _ (rest : Rest) where
  open rest use {env}

  -- No started name stands for the module.
  abbrev pub Unused : Nodes → List Name → ℕ → Type 0
  Unused ns started h =
      (x : Name) (n : Node) → Occurs x started → find_node x ns ≡ some n → ¬ (n.handle ≡ h)

  pub record IsSettled (ns : Nodes) (started : List Name) (w : World rest) : Type 0 where
    pub all_up : AllUp rest ns started w
    pub down : (h : ℕ) → Unused ns started h → can_init (w.base h).state ≡ true

  -- The module `i` gets other fields.
  pub put-down :
      (w : World rest) (i h : ℕ) (b : Base)
      → (h ≡ i → can_init b.state ≡ true)
      → (¬ (h ≡ i) → can_init (w.base h).state ≡ true)
      → can_init (put_base rest i b w.base h).state ≡ true
  put-down w i h b f g = elim (ℕ_discrete h i) [
    | no e ↦ ap (λ (k : Base). can_init k.state) (put-other rest i h b w.base e) ∙ g e
    | yes e ↦
        subst (λ j. can_init (put_base rest i b w.base j).state ≡ true) (sym e)
          (ap (λ (k : Base). can_init k.state) (put-same rest i b w.base) ∙ f e)
  ]

  pub leave-IsSettled :
      (ns : Nodes) (started : List Name) (w : World rest) (x : Name) (n : Node) (ctx : Ctx)
      → IsSettled ns started w
      → find_node x ns ≡ some n
      → (v : Option Err × Run (env.World)) → Inited env ctx (enter_module rest n.handle w) v.0 v.1
      → let r = leave_module rest n.handle w v in IsSettled ns (up_if r.0 x started) r.1
  leave-IsSettled ns started w x n ctx a f (res, r) i = record {
    all_up = leave-AllUp rest ns started w x n ctx a.all_up f (res, r) i;
    down = λ h u. put-down w n.handle h r.base (itself res h i u) (λ d. a.down h (fewer res u));
  }
    where
      fewer : {h : ℕ} → (res : Option Err) → Unused ns (up_if res x started) h → Unused ns started h
      fewer (some e) u y m o = u y m o
      fewer none u y m o = u y m (ground (arith, count-append y started (x ∷ [])))

      itself :
          (res : Option Err) (h : ℕ)
          → Inited env ctx (enter_module rest n.handle w) res r
          → Unused ns (up_if res x started) h
          → h ≡ n.handle
          → can_init r.base.state ≡ true
      itself res h (Inited.refused c p q) u e =
          ap (λ (k : Run (env.World)). can_init k.base.state) q
          ∙ ap (λ j. can_init (w.base j).state) (sym e)
          ∙ a.down h (fewer res u)
      itself (some e') h (Inited.up c p q) u e = cc
      itself none h (Inited.up c p q) u e =
          absurd (u x n (ground (arith, count-append x started (x ∷ []))) f (sym e))
      itself res h (Inited.down e' c p q) u e = ap can_init q

  pub destroy-IsSettled :
      (ns : Nodes) (started : List Name) (w : World rest) (x : Name) (n : Node) (ctx : Ctx)
      → IsWilling env
      → IsSettled ns started w
      → find_node x ns ≡ some n
      → Occurs x started
      → IsSettled ns
          (without x started)
          (leave_module rest n.handle w (destroy env ctx (enter_module rest n.handle w))).1
  destroy-IsSettled ns started w x n ctx willing a f o = record {
    all_up =
        destroy-AllUp rest ns started w x n (destroy env ctx (enter_module rest n.handle w))
          a.all_up f o;
    down = λ h u.
        put-down w n.handle h _
          (λ e. ap can_init (
            destroy-destroyed env willing ctx (enter_module rest n.handle w)
              (ap is_running (up_state rest ns started w x n a.all_up o f))))
          (λ d. a.down h (others h d u));
  }
    where
      others : (h : ℕ) → ¬ (h ≡ n.handle) → Unused ns (without x started) h → Unused ns started h
      others h d u y m v g = elim (name_discrete y x) [
        | no e ↦ u y m (ground (arith, count-without y x started)) g
        | yes e ↦ λ q. d (
            sym q
            ∙ ap (λ (k : Node). k.handle)
                (some-injective _ _ (sym g ∙ ap (λ z. find_node z ns) e ∙ f)))
      ]

  pub Unused-before :
      (ns : Nodes) (started : List Name) (x : Name) (n : Node) (h : ℕ)
      → find_node x ns ≡ none
      → Unused ((x, n) ∷ ns) started h
      → Unused ns started h
  unfolding find_node
  Unused-before ns started x n h f u y m o g = elim (name_discrete y x) [
    | no e ↦ u y m o (ground arith)
    | yes e ↦ cc (f, g, ap (λ z. find_node z ns) e)
  ]

  -- What willing modules keep.
  unfoldable pub settled_modules : IsWilling env → Keeps (base_modules rest)
  unfolding running_modules set_app_context
  settled_modules willing =
      let k = running_modules rest in
      record {
        P = IsSettled;
        distinct = λ ns started w a. a.all_up.distinct;
        added = λ ns started w x n a f. record {
          all_up = k.added ns started w x n a.all_up f;
          down = λ h u. a.down h (Unused-before ns started x n h f u);
        };
        inits = λ ns started w x n ctx a f b.
            leave-IsSettled ns started w x n ctx a f _
              (init-Inited env ctx (enter_module rest n.handle w));
        destroys =
            λ ns started w x n ctx a f o. destroy-IsSettled ns started w x n ctx willing a f o;
        injects = λ ns started w i a. record {
          all_up = k.injects ns started w i a.all_up;
          down = λ h u.
              put-down w i h (set_app_context (some rest.app_ctx) (w.base i))
                (λ e. ap (λ j. can_init (w.base j).state) (sym e) ∙ a.down h u) (λ d. a.down h u);
        };
        checks = λ ns started w h ctx a. record {
          all_up = k.checks ns started w h ctx a.all_up;
          down = a.down;
        };
        ends = λ ns started w a. record { all_up = k.ends ns started w a.all_up; down = a.down };
        awaits = λ ns started w ctx a. record {
          all_up = k.awaits ns started w ctx a.all_up;
          down = a.down;
        };
      }
