-- ===== src/Manager/StartLayer.antt =====
-- `startLayer`: the modules of a layer come up, or some of them do and an error is returned.
use appmod.Common.{
  All, ◌≤◌, Name, List, [], ◌∷◌, ◌++◌, Option, none, some, true, count, ◌≡◌, refl, sym, ap, ◌∙◌,
  arith, Perm, Occurs, ◌⊎◌, inl, inr, count-append, count-perm, subst, append-nil, ◌≢◌,
}
use appmod.Errors.{
  Err, Sentinel, module_failed_to_start, join, joined, errs_of, is_err, any_is, is_err-join,
  is_err-wrapped,
}
use appmod.Base.Environment.{Ctx}
use appmod.Manager.Defs.{Node, Nodes, Manager, find_node, keys}
use appmod.Manager.Known.{find_node_cases}
use appmod.Manager.Modules.{Modules, context_err}
use appmod.Manager.Teardown.{At}
use appmod.Manager.StopLayer.{with_started}
use appmod.Manager.Calling.{answers, behind, Noted, Told, All-Told, Quiet, risen, count-risen}
use appmod.Manager.Startup.{started_or_failed, start_node, start_each, start_layer}
use appmod.Manager.StartCalls.{
  with_started-append, by_init, failed_to_start, noted_errors, noted_errors-Noted, noted_errors-nil,
  start_each-calls,
}

module _ (mods : Modules) (ctx : Ctx) where
  open mods use {World, init_module, arrange, arrange-perm}

  -- An error that the context or the `Init` of a registered module returned.
  abbrev pub Reason : Nodes → Err → Type 0
  Reason ns e =
      ((w : World) × (context_err mods ctx w ≡ some e))
      ⊎ ((name : Name) × (n : Node) × (w : World) × (find_node name ns ≡ some n)
          × ((init_module n.handle ctx w).0 ≡ some e))

  -- What the goroutines of some modules did: all are up, or some are, and an error was noted.
  pub data Each (xs : List Name) (s : At mods) (errs : List Err) (s' : At mods) : Type 0 where
    all_up :
        errs ≡ []
        → s'.manager ≡ with_started (s.manager.started ++ xs) s.manager
        → Each xs s errs s'
    some_up :
        (up : List Name) (e : Err)
        → s'.manager ≡ with_started (s.manager.started ++ up) s.manager
        → ((d : Name) → count d up ≤ count d xs)
        → Reason s.manager.nodes e
        → errs ≢ []
        → ((t : Sentinel) → is_err e t ≡ true → any_is errs t ≡ true)
        → Each xs s errs s'

  start_node-Each :
      (x : Name) (n : Node) (s : At mods)
      → find_node x s.manager.nodes ≡ some n
      → let w = start_node mods ctx x (some n) s in Each (x ∷ []) s w.0 w.1
  unfolding start_node
  start_node-Each x n s f = go (init_module n.handle ctx s.world) refl
    where
      go :
          (r : Option Err × World)
          → init_module n.handle ctx s.world ≡ r
          → let w = started_or_failed mods x r s.manager in Each (x ∷ []) s w.0 w.1
      go (none, w) e = unfold started_or_failed in all_up refl refl
      go (some e', w) e =
          unfold started_or_failed in
          some_up [] e' (ap (λ l. with_started l s.manager) (sym (append-nil _))) (λ d. omega arith)
            (inr (x, n, s.world, f, ap (λ (r : Option Err × World). r.0) e)) (λ p. cc)
            (λ t h. ground (arith, is_err-wrapped (module_failed_to_start x) e' t))

  any_is-left : (xs ys : List Err) (t : Sentinel) → any_is xs t ≡ true → any_is (xs ++ ys) t ≡ true
  any_is-left [] ys t h = cc
  any_is-left (x ∷ xs) ys t h = ground (arith, any_is-left xs ys t)

  any_is-right : (xs ys : List Err) (t : Sentinel) → any_is ys t ≡ true → any_is (xs ++ ys) t ≡ true
  any_is-right [] ys t h = h
  any_is-right (x ∷ xs) ys t h = ground (arith, any_is-right xs ys t h)

  append-ne-nil_left : (xs ys : List Err) → xs ≢ [] → xs ++ ys ≢ []
  append-ne-nil_left [] ys h = absurd (h refl)
  append-ne-nil_left (x ∷ xs) ys h = λ e. cc

  append-ne-nil_right : (xs ys : List Err) → ys ≢ [] → xs ++ ys ≢ []
  append-ne-nil_right [] ys h = h
  append-ne-nil_right (x ∷ xs) ys h = λ e. cc

  Reason-cast :
      (m m1 : Manager) (names : List Name) (e : Err)
      → m1 ≡ with_started names m
      → Reason m1.nodes e
      → Reason m.nodes e
  Reason-cast m m1 names e p = subst (λ (k : Manager). Reason k.nodes e) p

  Each-append :
      (xs ys : List Name) (s s1 s2 : At mods) (errs more : List Err)
      → Each xs s errs s1
      → Each ys s1 more s2
      → Each (xs ++ ys) s (errs ++ more) s2
  Each-append xs ys s s1 s2 errs more (all_up p q) (all_up p' q') =
      all_up (ap (λ l. l ++ more) p ∙ p') (with_started-append mods ctx _ _ _ xs ys q q')
  Each-append xs ys s s1 s2 errs more (all_up p q) (some_up up e q' c r n h) =
      some_up (xs ++ up) e (with_started-append mods ctx _ _ _ xs up q q')
        (λ d. omega (arith, c d, count-append d xs up, count-append d xs ys))
        (Reason-cast s.manager s1.manager (s.manager.started ++ xs) e q r)
        (append-ne-nil_right errs more n) (λ t k. any_is-right errs more t (h t k))
  Each-append xs ys s s1 s2 errs more (some_up up e q c r n h) (all_up p' q') =
      some_up (up ++ ys) e (with_started-append mods ctx _ _ _ up ys q q')
        (λ d. omega (arith, c d, count-append d up ys, count-append d xs ys)) r
        (append-ne-nil_left errs more n) (λ t k. any_is-left errs more t (h t k))
  Each-append xs ys s s1 s2 errs more (some_up up e q c r n h) (some_up up' e' q' c' r' n' h') =
      some_up (up ++ up') e (with_started-append mods ctx _ _ _ up up' q q')
        (λ d. omega (arith, c d, c' d, count-append d up up', count-append d xs ys)) r
        (append-ne-nil_left errs more n) (λ t k. any_is-left errs more t (h t k))

  Each-nodes :
      (xs : List Name) (s s' : At mods) (errs : List Err)
      → Each xs s errs s'
      → s'.manager.nodes ≡ s.manager.nodes
  Each-nodes xs s s' errs (all_up p q) = ap (λ (m : Manager). m.nodes) q
  Each-nodes xs s s' errs (some_up up e q c r n h) = ap (λ (m : Manager). m.nodes) q

  start_each-Each :
      (xs : List Name) (s : At mods)
      → ((d : Name) → Occurs d xs → Occurs d (keys s.manager.nodes))
      → let w = start_each mods ctx xs s in Each xs s w.0 w.1
  unfolding start_each
  start_each-Each [] s k = all_up refl (ap (λ l. with_started l s.manager) (sym (append-nil _)))
  start_each-Each (x ∷ xs) s k =
      let v = start_node mods ctx x (find_node x s.manager.nodes) s in
      Each-append (x ∷ []) xs s v.1 _ _ _ here (
        start_each-Each xs v.1 (λ d o.
          subst (λ ns. Occurs d (keys ns)) (sym (Each-nodes (x ∷ []) s v.1 v.0 here))
            (k d (omega arith))))
    where
      here :
          let v = start_node mods ctx x (find_node x s.manager.nodes) s in Each (x ∷ []) s v.0 v.1
      here = elim (find_node_cases x s.manager.nodes) [
        | inl (p, q) ↦ absurd (ground (arith, k x))
        | inr (n, p, q) ↦
            subst (λ o. let v = start_node mods ctx x o s in Each (x ∷ []) s v.0 v.1) (sym p)
              (start_node-Each x n s p)
      ]

  -- A layer came up, where `Init` of every module was called and answered nil; or something of it,
  -- where `Init` of every module was called, those came up that answered nil, and the errors of the
  -- others are part of what is returned.
  pub data Layer (l : List Name) (s : At mods) (res : Option Err) (s' : At mods) : Type 0 where
    all_up :
        (up : List Name)
        → res ≡ none
        → Perm up l
        → s'.manager ≡ with_started (s.manager.started ++ up) s.manager
        → s'.world ≡ behind (by_init mods ctx) s.manager.nodes up s.world
        → All Quiet (answers (by_init mods ctx) s.manager.nodes up s.world)
        → Layer l s res s'
    some_up :
        (tried up : List Name) (e c : Err)
        → res ≡ some c
        → s'.manager ≡ with_started (s.manager.started ++ up) s.manager
        → ((d : Name) → count d up ≤ count d l)
        → Reason s.manager.nodes e
        → ((t : Sentinel) → is_err e t ≡ true → is_err c t ≡ true)
        → Perm tried l
        → s'.world ≡ behind (by_init mods ctx) s.manager.nodes tried s.world
        → up ≡ risen (answers (by_init mods ctx) s.manager.nodes tried s.world)
        → All (Told res) (answers (by_init mods ctx) s.manager.nodes tried s.world)
        → Layer l s res s'

  Each-Layer :
      (xs l : List Name) (s s' : At mods) (errs : List Err)
      → Perm xs l
      → s'.world ≡ behind (by_init mods ctx) s.manager.nodes xs s.world
      → errs ≡ noted_errors mods ctx (answers (by_init mods ctx) s.manager.nodes xs s.world)
      → s'.manager
        ≡ with_started
            (s.manager.started ++ risen (answers (by_init mods ctx) s.manager.nodes xs s.world))
            s.manager
      → Each xs s errs s'
      → Layer l s (join errs) s'
  Each-Layer xs l s s' [] p w n m (all_up e q) =
      all_up xs refl p q w (noted_errors-nil mods ctx _ (sym n))
  Each-Layer xs l s s' (x ∷ errs) p w n m (all_up e q) = cc
  Each-Layer xs l s s' [] p w n m (some_up up e q c r ne h) = absurd (ne refl)
  Each-Layer xs l s s' (x ∷ errs) p w n m (some_up up e q c r ne h) =
      some_up xs _ e (joined (errs_of (x ∷ errs))) refl m
        (λ d.
          omega
            (arith, count-risen (by_init mods ctx) s.manager.nodes xs s.world d, count-perm d p))
        r (λ t k. is_err-join (x ∷ errs) t ∙ h t k) p w refl
        (All-Told (failed_to_start mods ctx) (x ∷ errs) _
          (λ y e' t. is_err-wrapped (module_failed_to_start y) e' t)
          (subst
            (λ es.
              All (Noted (failed_to_start mods ctx) es)
                (answers (by_init mods ctx) s.manager.nodes xs s.world))
            (sym n) (noted_errors-Noted mods ctx _)))

  pub start_layer-Layer :
      (l : List Name) (s : At mods)
      → ((d : Name) → Occurs d l → Occurs d (keys s.manager.nodes))
      → let w = start_layer mods ctx l s in Layer l s w.0 w.1
  unfolding start_layer
  start_layer-Layer l s k =
      let xs = arrange s.world l in
      let known = λ (d : Name) (o : Occurs d xs).
        k d (omega (arith, count-perm d (arrange-perm s.world l))) in
      let (w, n, m) = start_each-calls mods ctx s.manager.nodes xs s refl known in
      Each-Layer xs l s _ _ (arrange-perm s.world l) w n m (start_each-Each xs s known)
