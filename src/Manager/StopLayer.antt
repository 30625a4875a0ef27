-- ===== src/Manager/StopLayer.antt =====
-- `stopLayer`: what it makes of the manager.
use appmod.Common.{
  ℕ, ◌++◌, ap₂, name_eqb_iff, name_discrete, Perm, ◌<◌, Name, List, [], ◌∷◌, Option, none, some,
  count, ◌≡◌, refl, sym, ap, ◌∙◌, arith, Occurs, inl, inr, count-perm, if◌then◌else◌, subst, All,
  ◌==◌,
}
use appmod.Common.Counts.{All-of_Occurs, All-Occurs}
use appmod.Base.Environment.{Ctx}
use appmod.Manager.Defs.{Node, Nodes, Manager, find_node, keys}
use appmod.Manager.Known.{find_node_cases}
use appmod.Manager.Layers.{concat}
use appmod.Manager.Modules.{Modules}
use appmod.Manager.Teardown.{
  At, without, forget, stop_failure, failures_of, in_layer_order, stop_node, stop_each, stop_layer,
}
use appmod.Manager.Calling.{Answers, call_node, answers, behind, In, In-left, In-right, Noted}
use appmod.Errors.{Err, wrapped, module_failed_to_stop}
use appmod.Manager.StopLayers.{count-without}

abbrev pub minus : List Name → List Name → List Name
minus [] started = started
minus (x ∷ xs) started = minus xs (without x started)

-- A manager whose started modules have changed, and nothing else.
abbrev pub with_started : List Name → Manager → Manager
with_started names m = record m { started = names }

pub count-minus :
    (d : Name) (xs started : List Name)
    → count d (minus xs started) ≡ (if count d xs == 0 then count d started else 0)
count-minus d [] started = refl
count-minus d (x ∷ xs) started =
    ground (arith, count-minus d xs (without x started), count-without d x started)

module _ (mods : Modules) (ctx : Ctx) where
  open mods use {World, arrange, arrange-perm, destroy_module}

  stop_node-manager :
      (x : Name) (n : Option Node) (s : At mods)
      → ¬ (n ≡ none)
      → (stop_node mods ctx x n s).1.manager ≡ with_started (without x s.manager.started) s.manager
  unfolding stop_node
  stop_node-manager x none s h = absurd (h refl)
  stop_node-manager x (some n) s h = refl

  pub stop_each-manager :
      (xs : List Name) (s : At mods)
      → All (λ x. Occurs x (keys s.manager.nodes)) xs
      → (stop_each mods ctx xs s).1.manager ≡ with_started (minus xs s.manager.started) s.manager
  unfolding stop_each
  stop_each-manager [] s a = refl
  stop_each-manager (x ∷ xs) s a =
      let s' = (stop_node mods ctx x (find_node x s.manager.nodes) s).1 in
      stop_each-manager xs s'
        (subst (λ (m : Manager). All (λ y. Occurs y (keys m.nodes)) xs) (sym here) a.1)
      ∙ ap (λ (m : Manager). with_started (minus xs m.started) m) here
    where
      here :
          (stop_node mods ctx x (find_node x s.manager.nodes) s).1.manager
          ≡ with_started (without x s.manager.started) s.manager
      here = stop_node-manager x (find_node x s.manager.nodes) s λ e.
          elim (find_node_cases x s.manager.nodes) [ inl (p, q) ↦ omega arith | inr (n, p, q) ↦ cc ]

  -- The layers are registered.
  abbrev pub Known : Manager → List (List Name) → Type 0
  Known m ls = (d : Name) → Occurs d (concat ls) → Occurs d (keys m.nodes)

  pub stop_layer-manager :
      (l : List Name) (s : At mods)
      → All (λ x. Occurs x (keys s.manager.nodes)) l
      → (names : List Name) × ((stop_layer mods ctx l s).1.manager ≡ with_started names s.manager)
        × ((d : Name) → count d names ≡ (if count d l == 0 then count d s.manager.started else 0))
  unfolding stop_layer
  stop_layer-manager l s a =
      let xs = arrange s.world l in
      (
        minus xs s.manager.started,
        stop_each-manager xs s (
            All-of_Occurs _ xs λ d o.
              All-Occurs (λ x. Occurs x (keys s.manager.nodes)) l d a
                (subst (λ k. 0 < k) (count-perm d (arrange-perm s.world l)) o)),
        (λ d.
            ground
              (arith, count-minus d xs s.manager.started, count-perm d (arrange-perm s.world l))),
      )

  -- `Destroy` of the modules of a teardown.
  abbrev pub destroying : ℕ → World → Option Err × World
  destroying h w = destroy_module h ctx w

  abbrev pub failed_to_stop : Name → Err → Err
  failed_to_stop x e = wrapped (module_failed_to_stop x) e

  -- What the goroutines of a layer noted, given what the modules answered.
  abbrev failures : Answers → List (Name × Err)
  failures [] = []
  failures ((x, r) ∷ l) = stop_failure mods x r ++ failures l

  stop_node-calls :
      (x : Name) (n : Option Node) (s : At mods)
      → let r = call_node destroying n s.world in
        let v = stop_node mods ctx x n s in
        (v.1.world ≡ r.1) × (v.0 ≡ stop_failure mods x r.0) × (v.1.manager.nodes ≡ s.manager.nodes)
  unfolding stop_node forget
  stop_node-calls x none s = (refl, refl, refl)
  stop_node-calls x (some n) s = (refl, refl, refl)

  -- Each module is destroyed, one behind the other, and each failure is noted.
  stop_each-calls :
      (ns : Nodes) (xs : List Name) (s : At mods)
      → s.manager.nodes ≡ ns
      → let v = stop_each mods ctx xs s in
        (v.1.world ≡ behind destroying ns xs s.world)
        × (v.0 ≡ failures (answers destroying ns xs s.world))
  unfolding stop_each
  stop_each-calls ns [] s q = (refl, refl)
  stop_each-calls ns (x ∷ xs) s q =
      let (w, e, k) = stop_node-calls x (find_node x s.manager.nodes) s in
      let (w', e') =
        stop_each-calls ns xs (stop_node mods ctx x (find_node x s.manager.nodes) s).1 (k ∙ q) in
      let here = ap (λ m. call_node destroying (find_node x m) s.world) q in
      (
        w' ∙ ap (behind destroying ns xs) (w ∙ ap (λ r. r.1) here),
        ap₂ (◌++◌) (e ∙ ap (λ r. stop_failure mods x r.0) here)
            (e' ∙ ap (λ z. failures (answers destroying ns xs z)) (w ∙ ap (λ r. r.1) here)),
      )

  -- An error of a name of the layer is among those in the order of the layer.
  In-failures :
      (x : Name) (e : Err) (es : List (Name × Err)) → In (x, e) es → In e (failures_of mods x es)
  In-failures x e [] i = absurd i
  In-failures x e ((y, e') ∷ es) (inl p) =
      ground (arith, name_eqb_iff y x, ap (λ z. z.0) p, ap (λ z. z.1) p)
  In-failures x e ((y, e') ∷ es) (inr i) = ground (arith, In-failures x e es i)

  In-order :
      (x : Name) (e : Err) (l : List Name) (es : List (Name × Err))
      → Occurs x l
      → In (x, e) es
      → In e (in_layer_order mods l es)
  In-order x e [] es o i = absurd (omega arith)
  In-order x e (y ∷ l) es o i = elim (name_discrete x y) [
    | yes p ↦
        In-left e (failures_of mods y es) (in_layer_order mods l es)
          (subst (λ z. In e (failures_of mods z es)) p (In-failures x e es i))
    | no p ↦
        In-right e (failures_of mods y es) (in_layer_order mods l es)
          (In-order x e l es (ground (arith, o)) i)
  ]

  answers-Noted :
      (ns : Nodes) (l xs : List Name) (w : World) (es : List (Name × Err))
      → ((d : Name) → Occurs d xs → Occurs d l)
      → ((p : Name × Err) → In p (failures (answers destroying ns xs w)) → In p es)
      → All (Noted failed_to_stop (in_layer_order mods l es)) (answers destroying ns xs w)
  answers-Noted ns l [] w es k f = tt
  answers-Noted ns l (x ∷ xs) w es k f =
      go (call_node destroying (find_node x ns) w) f
        (λ w'. answers-Noted ns l xs w' es (λ d o. k d (omega arith)))
    where
      go :
          (r : Option Err × World)
          → ((p : Name × Err)
              → In p (stop_failure mods x r.0 ++ failures (answers destroying ns xs r.1))
              → In p es)
          → ((w' : World)
              → ((p : Name × Err) → In p (failures (answers destroying ns xs w')) → In p es)
              → All (Noted failed_to_stop (in_layer_order mods l es)) (answers destroying ns xs w'))
          → Noted failed_to_stop (in_layer_order mods l es) (x, r.0)
            × All (Noted failed_to_stop (in_layer_order mods l es)) (answers destroying ns xs r.1)
      go (none, w') f' ih = (tt, ih w' f')
      go (some e, w') f' ih =
          (In-order x _ l es (k x (ground arith)) (f' _ (inl refl)), ih w' (λ p i. f' p (inr i)))

  -- The modules of a layer are destroyed in some order, and each of their errors is noted.
  pub stop_layer-calls :
      (l : List Name) (s : At mods)
      → let v = stop_layer mods ctx l s in
        (xs : List Name) × Perm xs l
        × (v.1.world ≡ behind destroying s.manager.nodes xs s.world)
        × All (Noted failed_to_stop v.0) (answers destroying s.manager.nodes xs s.world)
  unfolding stop_layer
  stop_layer-calls l s =
      let xs = arrange s.world l in
      let (w, e) = stop_each-calls s.manager.nodes xs s refl in
      (
        xs,
        arrange-perm s.world l,
        w,
        subst
            (λ es.
              All (Noted failed_to_stop (in_layer_order mods l es))
                (answers destroying s.manager.nodes xs s.world))
            (sym e)
            (answers-Noted s.manager.nodes l xs s.world _
              (λ d o. omega (arith, count-perm d (arrange-perm s.world l))) (λ p i. i)),
      )
