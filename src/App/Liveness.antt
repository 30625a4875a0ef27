-- ===== src/App/Liveness.antt =====
-- An application whose hooks never fail, and whose contexts are never done, can be started, and
-- after each stop again.
use appmod.Common.{
  ℕ, Name, List, [], ◌∷◌, Option, none, some, true, count, ◌≡◌, refl, sym, ap, ◌∙◌, arith, Perm,
  count-append, count-perm, subst, inl, inr,
}
use appmod.Errors.{Err}
use appmod.Base.Defs.{Base, set_app_context}
use appmod.Base.Environment.{Ctx, given, detached}
use appmod.Base.Lifecycle.{can_init}
use appmod.Base.Willing.{IsWilling, init-none}
use appmod.Manager.Defs.{Node, Nodes, Manager, find_node}
use appmod.Manager.Known.{IsClosed}
use appmod.Manager.Cycles.{IsRanked, plan_of_rank}
use appmod.Manager.Layers.{concat}
use appmod.Manager.Modules.{context_err}
use appmod.Manager.Teardown.{At, stop}
use appmod.Manager.Startup.{start, can_start}
use appmod.Manager.Stopping.{Stopped, stop-Stopped}
use appmod.Manager.Histories.{Program, Reached, after, stops}
use appmod.Manager.Reaching.{Reached-IsSound}
use appmod.Manager.Invariance.{Reached-Holds}
use appmod.Manager.Rising.{Rises}
use appmod.Manager.Risen.{start-none}
use appmod.App.{Rest, World, base_modules, enter_module}
use appmod.App.Running.{no_module, same_up, up_state, put-other}
use appmod.App.Settling.{IsSettled, settled_modules, put-down}

module _ (rest : Rest) (willing : IsWilling (rest.env)) where
  open rest use {env}

  -- The modules can be started at the beginning, and nothing but the manager starts or stops one.
  abbrev pub calm_program : Program (base_modules rest)
  calm_program = record {
    initial = λ w. (h : ℕ) → can_init (w.base h).state ≡ true;
    other = λ w w'. (h : ℕ) → (w'.base h).state ≡ (w.base h).state;
  }

  -- No module is registered under two names.
  abbrev pub IsInjective : Nodes → Type 0
  IsInjective ns =
      (x y : Name) (n m : Node)
      → find_node x ns ≡ some n
      → find_node y ns ≡ some m
      → n.handle ≡ m.handle
      → x ≡ y

  context-none : (ctx : Ctx) (w : World rest) → context_err (base_modules rest) ctx w ≡ none
  context-none (given c) w = willing.open_ended c w.outer
  context-none (detached c) w = refl

  -- The modules that are not started yet can be.
  rising : (ctx : Ctx) (ns : Nodes) → IsInjective ns → Rises (base_modules rest) ctx ns
  unfolding set_app_context
  rising ctx ns inj = record {
    R = λ started w.
        (x : Name) (n : Node)
        → find_node x ns ≡ some n
        → count x started ≡ 0
        → can_init (w.base n.handle).state ≡ true;
    open_ended = context-none ctx;
    comes_up = λ started w x n r f c up. (
      init-none env willing ctx (enter_module rest n.handle w) (r x n f c),
      λ y m g d.
          ap (λ (b : Base). can_init b.state)
            (put-other rest n.handle m.handle _ w.base
              λ e. ground (arith, count-append y started (x ∷ []), inj y x m n g f e))
          ∙ r y m g (ground (arith, count-append y started (x ∷ []))),
    );
    injected = λ started w h r y m g d.
        put-down rest w h m.handle (set_app_context (some rest.app_ctx) (w.base h))
          (λ e. ap (λ j. can_init (w.base j).state) (sym e) ∙ r y m g d) (λ e. r y m g d);
  }

  settled :
      (s : At (base_modules rest))
      → Reached (base_modules rest) calm_program s
      → IsSettled rest s.manager.nodes s.manager.started s.world
  unfolding settled_modules
  settled =
      Reached-Holds (base_modules rest) (settled_modules rest willing) calm_program
        (λ ns started w w' o a. record {
          all_up =
              same_up rest ns started w w' a.all_up
                (λ x n q f. o n.handle ∙ up_state rest ns started w x n a.all_up q f);
          down = λ h u. ap can_init (o h) ∙ a.down h u;
        })
        (λ w i. record { all_up = no_module rest w; down = λ h u. i h })

  -- In every history of an application that starts and stops modules only through its manager, whose
  -- modules can all be started at first, whose hooks never fail and whose contexts are never done, a
  -- manager that is neither starting nor running, and has no module started, starts: if the
  -- dependencies are registered and ranked, and no module has two names, then `Start` returns nil.
  pub willing-start :
      (ctx : Ctx) (s : At (base_modules rest)) (rank : Name → ℕ)
      → Reached (base_modules rest) calm_program s
      → can_start s.manager.state ≡ true
      → s.manager.started ≡ []
      → IsClosed s.manager.nodes s.manager.nodes
      → IsRanked rank s.manager.nodes
      → IsInjective s.manager.nodes
      → (start (base_modules rest) ctx s).0 ≡ none
  unfolding rising
  willing-start ctx s rank r c e closed ranked inj =
      let v = Reached-IsSound (base_modules rest) calm_program s r in
      let (ls, p) = plan_of_rank rank s.manager.nodes v.is_map ranked closed in
      start-none (base_modules rest) ctx s.manager.nodes (rising ctx s.manager.nodes inj) s ls refl
        v.is_map c e p
        (λ x n f d.
          (settled s r).down n.handle (λ y m o. absurd (omega (arith, o, ap (count y) e))))

  none_left : (l : List Name) (ls : List (List Name)) → ls ≡ [] → Perm l (concat ls) → l ≡ []
  none_left [] ls e p = refl
  none_left (x ∷ xs) ls e p =
      absurd (ground (arith, count-perm x p, ap (λ k. count x (concat k)) e))

  all_gone :
      (ctx : Ctx) {s s' : At (base_modules rest)} {res : Option Err}
      (t : Stopped (base_modules rest) ctx s res s')
      → t.rest ≡ []
  all_gone ctx {s' = s'} t = elim t.ending [
    | inl e ↦ e
    | inr (e, q, h) ↦ cc (context-none ctx s'.world, q)
  ]

  -- In every history of an application that starts and stops modules only through its manager, whose
  -- modules can all be started at first, whose hooks never fail and whose contexts are never done, the
  -- manager can be stopped and started: if the dependencies are registered and ranked, and no
  -- module has two names, then `Start` after `Stop` returns nil.
  pub start-stop :
      (ctx ctx' : Ctx) (s : At (base_modules rest)) (rank : Name → ℕ)
      → Reached (base_modules rest) calm_program s
      → IsClosed s.manager.nodes s.manager.nodes
      → IsRanked rank s.manager.nodes
      → IsInjective s.manager.nodes
      → (start (base_modules rest) ctx (stop (base_modules rest) ctx' s).1).0 ≡ none
  start-stop ctx ctx' s rank r closed ranked inj =
      let v = Reached-IsSound (base_modules rest) calm_program s r in
      let t = stop-Stopped (base_modules rest) ctx' s v.well_formed in
      let n = ap (λ (m : Manager). m.nodes) t.others in
      willing-start ctx (stop (base_modules rest) ctx' s).1 rank (after s _ r (stops ctx'))
        (ap (λ (m : Manager). can_start m.state) t.others)
        (none_left _ t.rest (all_gone ctx' t) t.kept) (subst (λ ns. IsClosed ns ns) (sym n) closed)
        (subst (IsRanked rank) (sym n) ranked) (subst IsInjective (sym n) inj)
