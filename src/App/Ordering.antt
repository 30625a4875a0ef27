-- ===== src/App/Ordering.antt =====
-- When the manager calls `Init` of a module, the modules that it depends on are running.
use appmod.Common.{
  ℕ, Name, name_discrete, List, [], ◌∷◌, Option, none, some, ◌≡◌, refl, sym, ap, ◌∙◌, arith, Occurs,
  All, subst,
}
use appmod.Errors.{Err}
use appmod.Base.Defs.{State, running}
use appmod.Manager.Defs.{Node, Nodes, find_node}
use appmod.Manager.Modules.{Modules}
use appmod.Manager.Teardown.{At}
use appmod.Manager.Histories.{Program, Reached}
use appmod.Manager.Keeping.{Keeps}
use appmod.Manager.Invariance.{Reached-Holds}
use appmod.App.{Rest, World, base_modules}
use appmod.App.Running.{AllUp, no_module, running_modules, same_up, up_state}

-- A call of `Init`: of which module, and in which state every module was then.
pub record InitCall : Type 0 where
  pub handle : ℕ
  pub states : ℕ → State

-- An application with its calls of `Init`, the last one first.
pub record Noted (W : Type 0) : Type 0 where
  pub app : W
  pub calls : List InitCall

module _ (rest : Rest) where
  abbrev pub noted : Noted (World rest) → Option Err × World rest → Option Err × Noted (World rest)
  noted w (e, a) = (e, record w { app = a })

  abbrev pub note_init : ℕ → Noted (World rest) → List InitCall
  note_init h w = record { handle = h; states = λ i. (w.app.base i).state } ∷ w.calls

  -- The same modules, where each call of `Init` is noted.
  abbrev pub noted_modules : Modules
  noted_modules =
      let m = base_modules rest in
      record {
        World = Noted (World rest);
        ctx_err = λ c w. m.ctx_err c w.app;
        init_module =
            λ h ctx w. noted (record w { calls = note_init h w }) (m.init_module h ctx w.app);
        destroy_module = λ h ctx w. noted w (m.destroy_module h ctx w.app);
        inject = λ h w. record w { app = m.inject h w.app };
        checks_health = m.checks_health;
        health_check = λ h ctx w. noted w (m.health_check h ctx w.app);
        end_shutdown = λ w. record w { app = m.end_shutdown w.app };
        await_shutdown = λ ctx w. record w { app = m.await_shutdown ctx w.app };
        teardown_ctx = λ ctx w. m.teardown_ctx ctx w.app;
        wait_result = λ e w. m.wait_result e w.app;
        sh_exit_code = λ w. m.sh_exit_code w.app;
        arrange = λ w. m.arrange w.app;
        arrange-perm = λ w. m.arrange-perm w.app;
      }

  -- The call was for a registered module whose dependencies are registered, and were running.
  pub record IsInOrder (ns : Nodes) (c : InitCall) : Type 0 where
    pub name : Name
    pub node : Node
    pub found : find_node name ns ≡ some node
    pub called : c.handle ≡ node.handle
    pub deps :
        (d : Name)
        → Occurs d node.deps
        → (m : Node) × (find_node d ns ≡ some m) × (c.states m.handle ≡ running)

  abbrev pub AreInOrder : Nodes → List InitCall → Type 0
  AreInOrder ns = All (IsInOrder ns)

  added-find_node :
      (ns : Nodes) (x y : Name) (n m : Node)
      → find_node x ns ≡ none
      → find_node y ns ≡ some m
      → find_node y ((x, n) ∷ ns) ≡ some m
  unfolding find_node
  added-find_node ns x y n m f g = elim (name_discrete y x) [
    | no e ↦ ground arith
    | yes e ↦ cc (f, g, ap (λ z. find_node z ns) e)
  ]

  -- A new name changes nothing for the calls that were.
  added-AreInOrder :
      (ns : Nodes) (x : Name) (n : Node) (cs : List InitCall)
      → find_node x ns ≡ none
      → AreInOrder ns cs
      → AreInOrder ((x, n) ∷ ns) cs
  added-AreInOrder ns x n [] f a = tt
  added-AreInOrder ns x n (c ∷ cs) f (i, a) = (
    record {
      name = i.name;
      node = i.node;
      found = added-find_node ns x i.name n i.node f i.found;
      called = i.called;
      deps = λ d o. let (m, g, s) = i.deps d o in (m, added-find_node ns x d n m f g, s);
    },
    added-AreInOrder ns x n cs f a,
  )

  noted_keeps : Keeps noted_modules
  unfolding running_modules
  noted_keeps =
      let k = running_modules rest in
      record {
        P = λ ns started w. AllUp rest ns started w.app × AreInOrder ns w.calls;
        distinct = λ ns started w p. k.distinct ns started w.app p.0;
        added = λ ns started w x n p f.
            (k.added ns started w.app x n p.0 f, added-AreInOrder ns x n w.calls f p.1);
        inits = λ ns started w x n ctx p f b. (
          k.inits ns started w.app x n ctx p.0 f b,
          (
            record { name = x; node = n; found = f; called = refl; deps = λ d o. p.0.up d (b d o) },
            p.1,
          ),
        );
        destroys = λ ns started w x n ctx p f o. (k.destroys ns started w.app x n ctx p.0 f o, p.1);
        injects = λ ns started w h p. (k.injects ns started w.app h p.0, p.1);
        checks = λ ns started w h ctx p. (k.checks ns started w.app h ctx p.0, p.1);
        ends = λ ns started w p. (k.ends ns started w.app p.0, p.1);
        awaits = λ ns started w ctx p. (k.awaits ns started w.app ctx p.0, p.1);
      }

  -- No call was made yet; later on, nothing but the manager starts or stops a module.
  abbrev pub noted_program : Program noted_modules
  noted_program = record {
    initial = λ w. w.calls ≡ [];
    other = λ w w'. ((h : ℕ) → (w'.app.base h).state ≡ (w.app.base h).state) × (w'.calls ≡ w.calls);
  }

  -- In every history of an application that starts and stops modules only through its manager,
  -- whenever the manager called `Init`, it was for a registered module whose dependencies are all registered and were running at that moment.
  pub Reached-AreInOrder :
      (s : At noted_modules)
      → Reached noted_modules noted_program s
      → AreInOrder s.manager.nodes s.world.calls
  unfolding noted_keeps
  Reached-AreInOrder s r =
      (Reached-Holds noted_modules noted_keeps noted_program
        (λ ns started w w' o p. (
          same_up rest ns started w.app w'.app p.0
              (λ x n u f. o.0 n.handle ∙ up_state rest ns started w.app x n p.0 u f),
          subst (AreInOrder ns) (sym o.1) p.1,
        ))
        (λ w i. (no_module rest w.app, subst (AreInOrder []) (sym i) tt)) s r).1
