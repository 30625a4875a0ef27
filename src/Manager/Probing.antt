-- ===== src/Manager/Probing.antt =====
-- `Health`: which modules it probes, and what it returns.
use appmod.Common.{
  ℕ, Name, List, [], ◌∷◌, ◌++◌, Option, none, some, Bool, true, false, select, ◌≡◌, refl, sym, ap,
  ◌∙◌, ◌↔◌, if◌then◌else◌, All, subst, inl, inr,
}
use appmod.Errors.{Err, wrapped, module_unhealthy, join, is_err-wrapped}
use appmod.Base.Environment.{Ctx}
use appmod.Manager.Defs.{Node, Nodes, find_node}
use appmod.Manager.Modules.{Modules}
use appmod.Manager.Teardown.{At}
use appmod.Manager.Startup.{probe_of, probe_if, probes, probe_each, unhealthy, health}
use appmod.Manager.Calling.{
  Answers, call_node, answers, behind, Noted, Told, All-Noted-mono, All-Told, Quiet,
}

module _ (mods : Modules) (ctx : Ctx) where
  open mods use {World, checks_health, health_check}

  abbrev checks : Option Node → Bool
  checks none = false
  checks (some n) = checks_health n.handle

  -- A name of a registered module that checks its health.
  abbrev pub is_probed : Nodes → Name → Bool
  is_probed ns x = checks (find_node x ns)

  -- `HealthCheck` of a module.
  abbrev pub by_probe : ℕ → World → Option Err × World
  by_probe h w = health_check h ctx w

  abbrev failed_probe : Name → Err → Err
  failed_probe x e = wrapped (module_unhealthy x) e

  -- What `Health` notes, given what the modules answered.
  abbrev noted_errors : Answers → List Err
  noted_errors [] = []
  noted_errors ((x, r) ∷ l) = unhealthy mods x r ++ noted_errors l

  noted_errors-Noted : (l : Answers) → All (Noted failed_probe (noted_errors l)) l
  noted_errors-Noted [] = tt
  noted_errors-Noted ((x, none) ∷ l) = (tt, noted_errors-Noted l)
  noted_errors-Noted ((x, some e) ∷ l) = (
    inl refl,
    All-Noted-mono failed_probe (noted_errors l) (failed_probe x e ∷ noted_errors l) l
        (λ e' i. inr i) (noted_errors-Noted l),
  )

  join-Quiet : (l : Answers) → (join (noted_errors l) ≡ none) ↔ All Quiet l
  join-Quiet [] = ((λ e. tt), (λ e. refl))
  join-Quiet ((x, none) ∷ l) =
      let (to, from) = join-Quiet l in ((λ e. (refl, to e)), (λ a. from a.1))
  join-Quiet ((x, some e) ∷ l) = ((λ h. cc), (λ h. cc))

  -- The probes, one behind the other.
  probe_each-calls :
      (ns : Nodes) (xs : List Name) (w : World)
      → let v = probe_each mods ctx (probes mods ns xs) w in
        let ys = select (is_probed ns) xs in
        (v.1 ≡ behind by_probe ns ys w) × (v.0 ≡ noted_errors (answers by_probe ns ys w))
  unfolding probes probe_each
  probe_each-calls ns [] w = (refl, refl)
  probe_each-calls ns (x ∷ xs) w = go (find_node x ns) refl (probe_each-calls ns xs)
    where
      ys : List Name
      ys = select (is_probed ns) xs

      Later : Type 0
      Later =
          (w' : World)
          → let v = probe_each mods ctx (probes mods ns xs) w' in
            (v.1 ≡ behind by_probe ns ys w') × (v.0 ≡ noted_errors (answers by_probe ns ys w'))

      go :
          (o : Option Node)
          → find_node x ns ≡ o
          → Later
          → let v = probe_each mods ctx (probe_of mods x o ++ probes mods ns xs) w in
            let zs = (if checks o then x ∷ ys else ys) in
            (v.1 ≡ behind by_probe ns zs w) × (v.0 ≡ noted_errors (answers by_probe ns zs w))
      go none q ih = ih w
      go (some n) q ih = one (checks_health n.handle)
        where
          one :
              (b : Bool)
              → let v = probe_each mods ctx (probe_if mods b x n.handle ++ probes mods ns xs) w in
                let zs = (if b then x ∷ ys else ys) in
                (v.1 ≡ behind by_probe ns zs w) × (v.0 ≡ noted_errors (answers by_probe ns zs w))
          one false = ih w
          one true =
              let (e, f) = ih (health_check n.handle ctx w).1 in
              (
                e ∙ ap (λ o. behind by_probe ns ys (call_node by_probe o w).1) (sym q),
                ap (λ l. unhealthy mods x (health_check n.handle ctx w).0 ++ l) f
                    ∙ ap
                        (λ o.
                          let r = call_node by_probe o w in
                          noted_errors ((x, r.0) ∷ answers by_probe ns ys r.1))
                        (sym q),
              )

  -- `Health` calls `HealthCheck` of every started module that is registered and has one, in start
  -- order, whatever the others answer, and nothing else happens outside. It returns nil exactly if
  -- each of them answers nil, and each error that one of them answers is part of what it returns.
  -- It changes nothing of the manager.
  pub health_lem :
      (s : At mods)
      → let probed = select (is_probed s.manager.nodes) s.manager.started in
        let answered = answers by_probe s.manager.nodes probed s.world in
        let (res, s') = health mods ctx s in
        (s'.world ≡ behind by_probe s.manager.nodes probed s.world)
        × ((res ≡ none) ↔ All Quiet answered)
        × All (Told res) answered
        × (s'.manager ≡ s.manager)
  unfolding health
  health_lem s =
      let (e, f) = probe_each-calls s.manager.nodes s.manager.started s.world in
      let answered =
        answers by_probe s.manager.nodes (select (is_probed s.manager.nodes) s.manager.started)
          s.world in
      let (to, from) = join-Quiet answered in
      (
        e,
        ((λ h. to (sym (ap join f) ∙ h)), (λ a. ap join f ∙ from a)),
        subst (λ es. All (Told (join es)) answered) (sym f)
            (All-Told failed_probe (noted_errors answered) answered
              (λ x e' t. is_err-wrapped (module_unhealthy x) e' t) (noted_errors-Noted answered)),
        refl,
      )
