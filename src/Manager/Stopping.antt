-- ===== src/Manager/Stopping.antt =====
-- `Stop`: what is left started, and why.
use appmod.Common.{
  ap₂, All, All-append, Name, List, [], ◌∷◌, ◌++◌, Option, some, true, count, ◌≡◌, refl, sym, ap,
  ◌∙◌, arith, Perm, Occurs, ◌⊎◌, inl, inr, count-append, count-perm, perm_of_count, if◌then◌else◌,
  subst, Option-cases, ◌==◌, append-nil,
}
use mathlib.Core.List.Perm
use appmod.Common.Counts.{All-of_Occurs}
use appmod.Errors.{
  wrapped, module_failed_to_stop, Err, Sentinel, teardown_aborted, join, is_err, is_err?,
  is_err-join, is_err-wrapped,
}
use appmod.Base.Environment.{Ctx}
use appmod.Manager.Defs.{Manager, keys, stopped}
use appmod.Manager.Layers.{concat}
use appmod.Manager.Modules.{Modules, context_err}
use appmod.Manager.Teardown.{
  At, stop_layer, stop_each_layer, stop_layers, stop_started, stop, announced,
}
use appmod.Manager.StopLayers.{IsDistinct, stop_layers-perm, concat-append}
use appmod.Manager.StopLayer.{
  with_started, Known, stop_layer-manager, destroying, failed_to_stop, stop_layer-calls,
}
use appmod.Manager.Calling.{
  InLayers, InLayers-nil, In, In-left, In-right, In-any_is, Noted, Told, All-Noted-mono, All-Told,
  answers, behind, behind-append, answers-append,
}

-- Everything that is started is registered, once.
pub record WellFormed (m : Manager) : Type 0 where
  pub registered : (d : Name) → Occurs d m.started → Occurs d (keys m.nodes)
  pub distinct : IsDistinct m.started

module _ (mods : Modules) (ctx : Ctx) where
  open mods use {arrange, arrange-perm, end_shutdown}

  -- Some of the layers were torn down: all of them, or the context was done before the next one,
  -- and its error is reported. What is left started is what stands in none of these layers.
  -- They were destroyed in turn, in this order, and nothing else happened outside.
  record Torn (s : At mods) (ls : List (List Name)) (errs : List Err) (s' : At mods) : Type 0 where
    finished : List (List Name)
    rest : List (List Name)
    split : ls ≡ finished ++ rest
    names : List Name
    manager : s'.manager ≡ with_started names s.manager
    left :
        (d : Name)
        → count d names ≡ (if count d (concat finished) == 0 then count d s.manager.started else 0)
    order : List Name
    in_layers : InLayers finished order
    calls : s'.world ≡ behind (destroying mods ctx) s.manager.nodes order s.world
    noted :
        All
          (Noted (failed_to_stop mods ctx) errs)
          (answers (destroying mods ctx) s.manager.nodes order s.world)
    ending :
        (rest ≡ [])
        ⊎ ((e : Err) × (context_err mods ctx s'.world ≡ some e)
            × In (wrapped teardown_aborted e) errs)

  Torn-cons :
      (s s1 s2 : At mods) (l : List Name) (ls : List (List Name)) (names : List Name)
      (errs more : List Err)
      → s1.manager ≡ with_started names s.manager
      → ((d : Name) → count d names ≡ (if count d l == 0 then count d s.manager.started else 0))
      → (xs : List Name) → Perm xs l
      → s1.world ≡ behind (destroying mods ctx) s.manager.nodes xs s.world
      → All
          (Noted (failed_to_stop mods ctx) errs)
          (answers (destroying mods ctx) s.manager.nodes xs s.world)
      → Torn s1 ls more s2
      → Torn s (l ∷ ls) (errs ++ more) s2
  Torn-cons s s1 s2 l ls names errs more e c xs p w a t = record {
    finished = l ∷ t.finished;
    rest = t.rest;
    split = ap (◌∷◌ l) t.split;
    names = t.names;
    manager = t.manager ∙ ap (with_started t.names) e;
    left = λ d. ground (
      arith,
      t.left d,
      ap (λ (m : Manager). count d m.started) e,
      c d,
      count-append d l (concat t.finished),
    );
    order = xs ++ t.order;
    in_layers = (xs, t.order, refl, p, t.in_layers);
    calls =
        t.calls
        ∙ ap₂ (λ ns z. behind (destroying mods ctx) ns t.order z) same w
        ∙ sym (behind-append (destroying mods ctx) s.manager.nodes xs t.order s.world);
    noted =
        subst (All (Noted (failed_to_stop mods ctx) (errs ++ more)))
          (sym (answers-append (destroying mods ctx) s.manager.nodes xs t.order s.world))
          (All-append _ _ _
            (All-Noted-mono (failed_to_stop mods ctx) errs (errs ++ more) _
              (λ x. In-left x errs more) a)
            (All-Noted-mono (failed_to_stop mods ctx) more (errs ++ more) _
              (λ x. In-right x errs more)
              (subst (All (Noted (failed_to_stop mods ctx) more))
                (ap₂ (λ ns z. answers (destroying mods ctx) ns t.order z) same w) t.noted)));
    ending = elim t.ending [ inl r ↦ inl r | inr (x, p', q) ↦ inr (x, p', In-right _ errs more q) ];
  }
    where
      same : s1.manager.nodes ≡ s.manager.nodes
      same = ap (λ (m : Manager). m.nodes) e

  stop_each_layer-Torn :
      (ls : List (List Name)) (s : At mods)
      → Known mods ctx s.manager ls
      → let w = stop_each_layer mods ctx ls s in Torn s ls w.0 w.1
  unfolding stop_each_layer
  stop_each_layer-Torn [] s a = record {
    finished = [];
    rest = [];
    split = refl;
    names = s.manager.started;
    manager = refl;
    left = λ d. refl;
    order = [];
    in_layers = refl;
    calls = refl;
    noted = tt;
    ending = inl refl;
  }
  stop_each_layer-Torn (l ∷ ls) s a = elim (Option-cases (context_err mods ctx s.world)) [
    | inr (e, c) ↦
        rw (c, stop_each_layer)
          (record {
            finished = [];
            rest = l ∷ ls;
            split = refl;
            names = s.manager.started;
            manager = refl;
            left = λ d. refl;
            order = [];
            in_layers = refl;
            calls = refl;
            noted = tt;
            ending = inr (e, c, inl refl);
          })
    | inl c ↦
        let s1 = (stop_layer mods ctx l s).1 in
        let (names, e, k) =
          stop_layer-manager mods ctx l s
            (All-of_Occurs _ l (λ d o. a d (omega (arith, count-append d l (concat ls))))) in
        let (xs, p, w, a') = stop_layer-calls mods ctx l s in
        rw (c, stop_each_layer)
          (Torn-cons s s1 _ l ls names _ _ e k xs p w a' (
            stop_each_layer-Torn ls s1 (λ d o.
              subst (λ (m : Manager). Occurs d (keys m.nodes)) (sym e)
                (a d (omega (arith, count-append d l (concat ls)))))))
  ]

  -- What `Stop` leaves: a stopped manager with the same modules, of which those are still started
  -- that stand in the layers that were not torn down. None is left, unless the context was done;
  -- then its error is part of what `Stop` returns. The modules of the layers that were torn down
  -- were destroyed in turn, layer by layer, behind `End` of go-shutdown, and nothing else happened
  -- outside; the error of each is part of what `Stop` returns, too.
  pub record Stopped (s : At mods) (res : Option Err) (s' : At mods) : Type 0 where
    pub finished : List (List Name)
    pub rest : List (List Name)
    pub split : stop_layers s.manager.nodes s.manager.started ≡ finished ++ rest
    pub kept : Perm s'.manager.started (concat rest)
    pub others : s'.manager ≡ record (s.manager) { started = s'.manager.started; state = stopped }
    pub order : List Name
    pub in_layers : InLayers finished order
    pub calls : s'.world ≡ behind (destroying mods ctx) s.manager.nodes order (end_shutdown s.world)
    pub told :
        All (Told res) (answers (destroying mods ctx) s.manager.nodes order (end_shutdown s.world))
    pub ending :
        (rest ≡ [])
        ⊎ ((e : Err) × (context_err mods ctx s'.world ≡ some e)
            × ((t : Sentinel) → is_err e t ≡ true → is_err? res t ≡ true))

  Torn-Stopped :
      (s s' : At mods) (errs : List Err) (ls : List (List Name))
      → WellFormed s.manager
      → stop_layers s.manager.nodes s.manager.started ≡ ls
      → Torn (announced mods s) ls errs s'
      → Stopped s (join errs) s'
  Torn-Stopped s s' errs ls v e t = record {
    finished = t.finished;
    rest = t.rest;
    split = e ∙ t.split;
    kept = perm_of_count s'.manager.started (concat t.rest) λ d. ground (
      arith,
      ap (λ (m : Manager). count d m.started) t.manager,
      t.left d,
      count-perm d (stop_layers-perm s.manager.nodes s.manager.started v.distinct),
      ap (λ l. count d (concat l)) (e ∙ t.split),
      ap (count d) (concat-append t.finished t.rest),
      count-append d (concat t.finished) (concat t.rest),
      v.distinct d,
    );
    others =
        t.manager
        ∙ ap (λ l. record (s.manager) { started = l; state = stopped })
            (sym (ap (λ (m : Manager). m.started) t.manager));
    order = t.order;
    in_layers = t.in_layers;
    calls = t.calls;
    told =
        All-Told (failed_to_stop mods ctx) errs _
          (λ x e' t'. is_err-wrapped (module_failed_to_stop x) e' t') t.noted;
    ending = elim t.ending [
      | inl r ↦ inl r
      | inr (x, p, q) ↦ inr (
        x,
        p,
        λ t' h.
            is_err-join errs t' ∙ In-any_is _ errs t' q (is_err-wrapped teardown_aborted x t' ∙ h),
      )
    ];
  }

  -- The layers of a teardown are registered.
  layers-Known : (m : Manager) → WellFormed m → Known mods ctx m (stop_layers m.nodes m.started)
  layers-Known m v d o =
      v.registered d (omega (arith, count-perm d (stop_layers-perm m.nodes m.started v.distinct)))

  stop_started-Stopped :
      (started : List Name) (s : At mods)
      → started ≡ s.manager.started
      → WellFormed s.manager
      → let w = stop_started mods ctx started (announced mods s) in Stopped s w.0 w.1
  unfolding stop_started
  stop_started-Stopped [] s e v = record {
    finished = stop_layers s.manager.nodes s.manager.started;
    rest = [];
    split = sym (append-nil _);
    kept = subst (λ l. Perm l []) e Perm.nil;
    others = refl;
    order = [];
    in_layers = InLayers-nil _ (
        Perm.eq-nil (
          subst (Perm (concat (stop_layers s.manager.nodes s.manager.started))) (sym e)
            (stop_layers-perm s.manager.nodes s.manager.started v.distinct)));
    calls = refl;
    told = tt;
    ending = inl refl;
  }
  stop_started-Stopped (x ∷ xs) s e v =
      let ls = stop_layers s.manager.nodes (x ∷ xs) in
      Torn-Stopped s (stop_each_layer mods ctx ls (announced mods s)).1
        (stop_each_layer mods ctx ls (announced mods s)).0 ls v
        (ap (stop_layers s.manager.nodes) (sym e))
        (stop_each_layer-Torn ls (announced mods s) (
          subst (λ l. Known mods ctx s.manager (stop_layers s.manager.nodes l)) (sym e)
            (layers-Known s.manager v)))

  -- `Stop` of a manager whose started modules are registered, each once, tears down the layers of
  -- `stopLayers` from the first on: after `End` of go-shutdown, it calls `Destroy`, under the
  -- context that it is given, of every module of these layers, one layer behind the other, in any
  -- order within a layer, and nothing else happens outside. Each error that one of them returns is
  -- part of what `Stop` returns. The modules that remain started are those of the layers that it
  -- did not reach; there are none, unless the context was done, and then its error is part of what
  -- `Stop` returns. It leaves the manager stopped and changes nothing else of it.
  pub stop-Stopped :
      (s : At mods) → WellFormed s.manager → let w = stop mods ctx s in Stopped s w.0 w.1
  unfolding stop
  stop-Stopped s v = stop_started-Stopped s.manager.started s refl v
