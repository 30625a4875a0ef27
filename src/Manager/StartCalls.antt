-- ===== src/Manager/StartCalls.antt =====
-- `startLayer`: which modules it calls, and what it notes of their answers.
use appmod.Common.{
  ℕ, ap₂, All, Name, List, [], ◌∷◌, ◌++◌, Option, none, some, ◌≡◌, refl, sym, ap, ◌∙◌, arith,
  Occurs, inl, inr, append_assoc, append-nil,
}
use appmod.Errors.{Err, module_failed_to_start, wrapped}
use appmod.Base.Environment.{Ctx}
use appmod.Manager.Defs.{Node, Nodes, Manager, find_node, keys}
use appmod.Manager.Known.{find_node_cases}
use appmod.Manager.Modules.{Modules}
use appmod.Manager.Teardown.{At}
use appmod.Manager.StopLayer.{with_started}
use appmod.Manager.Calling.{
  Answers, call_node, answers, behind, Noted, All-Noted-mono, Quiet, risen, risen-append,
}
use appmod.Manager.Startup.{started_or_failed, start_node, start_each}

module _ (mods : Modules) (ctx : Ctx) where
  open mods use {World, init_module}

  pub with_started-append :
      (m m1 m2 : Manager) (xs ys : List Name)
      → m1 ≡ with_started (m.started ++ xs) m
      → m2 ≡ with_started (m1.started ++ ys) m1
      → m2 ≡ with_started (m.started ++ (xs ++ ys)) m
  with_started-append m m1 m2 xs ys e f =
      f
      ∙ ap (λ (k : Manager). with_started (k.started ++ ys) k) e
      ∙ ap (λ l. with_started l m) (append_assoc m.started xs ys)

  -- `Init` of the modules of a start.
  abbrev pub by_init : ℕ → World → Option Err × World
  by_init h w = init_module h ctx w

  abbrev pub failed_to_start : Name → Err → Err
  failed_to_start x e = wrapped (module_failed_to_start x) e

  -- What the goroutines of a layer noted, given what the modules answered.
  abbrev pub noted_errors : Answers → List Err
  noted_errors [] = []
  noted_errors ((x, none) ∷ l) = noted_errors l
  noted_errors ((x, some e) ∷ l) = failed_to_start x e ∷ noted_errors l

  pub noted_errors-Noted : (l : Answers) → All (Noted failed_to_start (noted_errors l)) l
  noted_errors-Noted [] = tt
  noted_errors-Noted ((x, none) ∷ l) = (tt, noted_errors-Noted l)
  noted_errors-Noted ((x, some e) ∷ l) = (
    inl refl,
    All-Noted-mono failed_to_start (noted_errors l) (failed_to_start x e ∷ noted_errors l) l
        (λ e' i. inr i) (noted_errors-Noted l),
  )

  pub noted_errors-nil : (l : Answers) → noted_errors l ≡ [] → All Quiet l
  noted_errors-nil [] e = tt
  noted_errors-nil ((x, none) ∷ l) e = (refl, noted_errors-nil l e)
  noted_errors-nil ((x, some e') ∷ l) e = cc

  start_node-calls :
      (x : Name) (n : Option Node) (s : At mods)
      → ¬ (n ≡ none)
      → let r = call_node by_init n s.world in
        let v = start_node mods ctx x n s in
        (v.1.world ≡ r.1)
        × (v.0 ≡ noted_errors ((x, r.0) ∷ []))
        × (v.1.manager ≡ with_started (s.manager.started ++ risen ((x, r.0) ∷ [])) s.manager)
  unfolding start_node started_or_failed
  start_node-calls x none s h = absurd (h refl)
  start_node-calls x (some n) s h = go (init_module n.handle ctx s.world)
    where
      go :
          (r : Option Err × World)
          → let v = started_or_failed mods x r s.manager in
            (v.1.world ≡ r.1)
            × (v.0 ≡ noted_errors ((x, r.0) ∷ []))
            × (v.1.manager ≡ with_started (s.manager.started ++ risen ((x, r.0) ∷ [])) s.manager)
      go (none, w) = (refl, refl, refl)
      go (some e, w) = (refl, refl, ap (λ l. with_started l s.manager) (sym (append-nil _)))

  noted_errors-cons :
      (x : Name) (r : Option Err) (l : Answers)
      → noted_errors ((x, r) ∷ []) ++ noted_errors l ≡ noted_errors ((x, r) ∷ l)
  noted_errors-cons x none l = refl
  noted_errors-cons x (some e) l = refl

  -- `Init` is called of each module, one behind the other; those that answer nil are started, and
  -- the errors of the others are noted.
  pub start_each-calls :
      (ns : Nodes) (xs : List Name) (s : At mods)
      → s.manager.nodes ≡ ns
      → ((d : Name) → Occurs d xs → Occurs d (keys ns))
      → let v = start_each mods ctx xs s in
        (v.1.world ≡ behind by_init ns xs s.world)
        × (v.0 ≡ noted_errors (answers by_init ns xs s.world))
        × (v.1.manager
            ≡ with_started (s.manager.started ++ risen (answers by_init ns xs s.world)) s.manager)
  unfolding start_each
  start_each-calls ns [] s q k =
      (refl, refl, ap (λ l. with_started l s.manager) (sym (append-nil _)))
  start_each-calls ns (x ∷ xs) s q k =
      let s1 = (start_node mods ctx x (find_node x s.manager.nodes) s).1 in
      let (w, e, m) = start_node-calls x (find_node x s.manager.nodes) s known in
      let (w', e', m') =
        start_each-calls ns xs s1 (ap (λ (z : Manager). z.nodes) m ∙ q)
          (λ d o. k d (omega arith)) in
      let r = call_node by_init (find_node x ns) s.world in
      let here = ap (λ z. call_node by_init (find_node x z) s.world) q in
      let at = w ∙ ap (λ z. z.1) here in
      (
        w' ∙ ap (behind by_init ns xs) at,
        ap₂ (◌++◌) (e ∙ ap (λ (z : Option Err × World). noted_errors ((x, z.0) ∷ [])) here)
              (e' ∙ ap (λ z. noted_errors (answers by_init ns xs z)) at)
            ∙ noted_errors-cons x r.0 (answers by_init ns xs r.1),
        with_started-append s.manager s1.manager _ _ _
              (m
                ∙ ap
                    (λ (z : Option Err × World).
                      with_started (s.manager.started ++ risen ((x, z.0) ∷ [])) s.manager)
                    here)
              (m'
                ∙ ap
                    (λ z.
                      with_started (s1.manager.started ++ risen (answers by_init ns xs z))
                        s1.manager)
                    at)
            ∙ ap (λ l. with_started (s.manager.started ++ l) s.manager)
                (sym (risen-append ((x, r.0) ∷ []) (answers by_init ns xs r.1))),
      )
    where
      known : ¬ (find_node x s.manager.nodes ≡ none)
      known h = elim (find_node_cases x ns) [
        | inl (p, c) ↦ absurd (ground (arith, k x))
        | inr (n, p, o) ↦ absurd (cc (h, p, q))
      ]
