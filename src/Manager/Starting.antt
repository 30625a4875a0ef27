-- ===== src/Manager/Starting.antt =====
-- `Start`: everything comes up behind its dependencies, or everything is taken down again.
use mathlib.Core.List.Perm
use appmod.Common.{
  All, All-append, ◌+◌, ◌≤◌, Name, List, [], ◌∷◌, ◌++◌, Option, none, some, true, count, ◌≡◌, refl,
  sym, ap, ap₂, ◌∙◌, arith, Perm, Occurs, inl, inr, count-append, count-perm, perm_of_count, subst,
  append-nil,
}
use appmod.Common.Counts.{All-of_Occurs, All-Occurs}
use appmod.Errors.{Err, Sentinel, is_err, is_err?, is_err-join}
use appmod.Base.Environment.{Ctx, detached}
use appmod.Manager.Defs.{Manager, keys, stopped, running, set_state}
use appmod.Manager.Counting.{IsMap}
use appmod.Manager.Layers.{concat, DepsIn, IsLayered}
use appmod.Manager.Backing.{IsBacked, IsBacked-append, DepsIn-mono}
use appmod.Manager.Modules.{Modules, context_err}
use appmod.Manager.Teardown.{At, stop}
use appmod.Manager.StopLayer.{with_started}
use appmod.Manager.Stopping.{WellFormed, Stopped, stop-Stopped}
use appmod.Manager.StartLayer.{Reason, Layer, start_layer-Layer}
use appmod.Manager.StartCalls.{by_init}
use appmod.Manager.Calling.{
  answers, answers-append, behind, behind-append, Quiet, Quiet-Told, Told, Told-mono, risen,
  risen-append, risen-Quiet,
}
use appmod.Manager.Startup.{start_layer, abort_cause, abort, or_abort, start_layers}

module _ (mods : Modules) (ctx : Ctx) where
  open mods use {World}

  -- What `Start` left of a manager that it could claim, whose modules are `m`'s, from the moment
  -- `w` at which these have the context of the application. All of them are started, each behind
  -- its dependencies: `Init` of each was called, in this order, and answered nil, and nothing else
  -- happened outside. Or it tried some of them, in turn, and took down again what had come up of
  -- these, as `Stop` does under the detached context, so that none is started; what the context or
  -- a module's `Init` reported is part of the error, and so is each error of an `Init` or of the
  -- teardown.
  pub data Launched (m : Manager) (w : World) (res : Option Err) (s' : At mods) : Type 0 where
    up :
        (names : List Name)
        → res ≡ none
        → s'.manager ≡ record m { started = names; state = running }
        → Perm names (keys m.nodes)
        → IsBacked m.nodes [] names
        → s'.world ≡ behind (by_init mods ctx) m.nodes names w
        → All Quiet (answers (by_init mods ctx) m.nodes names w)
        → Launched m w res s'
    down :
        (e : Err) (tried : List Name) (s1 : At mods) (stop_res : Option Err)
        → s'.manager ≡ record m { started = []; state = stopped }
        → Reason mods ctx m.nodes e
        → ((t : Sentinel) → is_err e t ≡ true → is_err? res t ≡ true)
        → ¬ (res ≡ none)
        → s1.manager ≡ with_started (risen (answers (by_init mods ctx) m.nodes tried w)) m
        → s1.world ≡ behind (by_init mods ctx) m.nodes tried w
        → All (Told res) (answers (by_init mods ctx) m.nodes tried w)
        → Stopped mods (detached ctx) s1 stop_res s'
        → ((t : Sentinel) → is_err? stop_res t ≡ true → is_err? res t ≡ true)
        → Launched m w res s'

  -- In the middle of `Start`: the layers `ls` are to come, and what was placed before is started.
  pub record Partly (m : Manager) (w : World) (placed : List Name) (s : At mods) : Type 0 where
    pub names : List Name
    pub manager : s.manager ≡ with_started names m
    pub perm : Perm names placed
    pub backed : IsBacked m.nodes [] names
    pub calls : s.world ≡ behind (by_init mods ctx) m.nodes names w
    pub quiet : All Quiet (answers (by_init mods ctx) m.nodes names w)

  -- Taking everything down again, behind any error.
  abort-Launched :
      (m : Manager) (w0 : World) (s : At mods) (names tried : List Name) (e cause : Err)
      → s.manager ≡ with_started names m
      → WellFormed (with_started names m)
      → Reason mods ctx m.nodes e
      → ((t : Sentinel) → is_err e t ≡ true → is_err cause t ≡ true)
      → names ≡ risen (answers (by_init mods ctx) m.nodes tried w0)
      → s.world ≡ behind (by_init mods ctx) m.nodes tried w0
      → All (Told (some cause)) (answers (by_init mods ctx) m.nodes tried w0)
      → let w = abort mods ctx cause s in Launched m w0 w.0 w.1
  unfolding abort
  abort-Launched m w0 s names tried e cause q v r h u o a =
      go (stop mods (detached ctx) s)
        (stop-Stopped mods (detached ctx) s (subst WellFormed (sym q) v))
    where
      go :
          (w : Option Err × At mods)
          → Stopped mods (detached ctx) s w.0 w.1
          → Launched m w0 (abort_cause mods cause w.0) w.1
      go (res, s') st =
          down e tried s res
            (st.others
              ∙ ap₂ (λ (k : Manager) l. record k { started = l; state = stopped }) q none_left)
            r (λ t k. joins res t (h t k)) (not_none res) (q ∙ ap (λ l. with_started l m) u) o
            (Told-mono (some cause) (abort_cause mods cause res) _ (not_none res) (joins res) a) st
            (joins_stop res)
        where
          none_left : s'.manager.started ≡ []
          none_left = elim st.ending [
            | inl z ↦ Perm.eq-nil (subst (λ ls. Perm s'.manager.started (concat ls)) z st.kept)
            | inr (x, c, d) ↦ cc
          ]

          joins :
              (r' : Option Err) (t : Sentinel)
              → is_err cause t ≡ true
              → is_err? (abort_cause mods cause r') t ≡ true
          joins none t k = k
          joins (some x) t k = is_err-join (cause ∷ x ∷ []) t ∙ ground arith

          joins_stop :
              (r' : Option Err) (t : Sentinel)
              → is_err? r' t ≡ true
              → is_err? (abort_cause mods cause r') t ≡ true
          joins_stop none t k = cc
          joins_stop (some x) t k = is_err-join (cause ∷ x ∷ []) t ∙ ground arith

          not_none : (r' : Option Err) → ¬ (abort_cause mods cause r' ≡ none)
          not_none none k = cc
          not_none (some x) k = cc

  -- The names that are up in the middle of a layer.
  Partly-WellFormed :
      (m : Manager) (placed l more names : List Name)
      → ((d : Name) → count d placed + count d l ≤ count d (keys m.nodes))
      → IsMap m.nodes
      → Perm names placed
      → ((d : Name) → count d more ≤ count d l)
      → WellFormed (with_started (names ++ more) m)
  Partly-WellFormed m placed l more names fits is_map p c = record {
    registered = λ d o. omega (arith, fits d, count-perm d p, c d, count-append d names more);
    distinct = λ d. omega (arith, fits d, is_map d, count-perm d p, c d, count-append d names more);
  }

  -- What is to be shown of the layers behind `l`.
  abbrev Rest : Manager → World → List Name → List (List Name) → List Name → Type 0
  Rest m w0 l ls placed =
      (s : At mods)
      → ((d : Name) → count d (placed ++ l) + count d (concat ls) ≡ count d (keys m.nodes))
      → IsLayered m.nodes (placed ++ l) ls
      → Partly m w0 (placed ++ l) s
      → let w = start_layers mods ctx ls s in Launched m w0 w.0 w.1

  -- The rest of the layers, from a moment at which `placed` are up.
  pub start_layers-Launched :
      (m : Manager) (w0 : World) (is_map : IsMap m.nodes) (ls : List (List Name))
      (placed : List Name) (s : At mods)
      → ((d : Name) → count d placed + count d (concat ls) ≡ count d (keys m.nodes))
      → IsLayered m.nodes placed ls
      → Partly m w0 placed s
      → let w = start_layers mods ctx ls s in Launched m w0 w.0 w.1
  unfolding start_layers set_state
  start_layers-Launched m w0 is_map [] placed s fits lay part =
      up part.names refl (ap (λ (k : Manager). record k { state = running }) part.manager)
        (perm_of_count _ _ (λ d. omega (arith, fits d, count-perm d part.perm))) part.backed
        part.calls part.quiet
  start_layers-Launched m w0 is_map (l ∷ ls) placed s fits lay part =
      go (context_err mods ctx s.world) refl (start_layers-Launched m w0 is_map ls (placed ++ l))
    where
      room : (d : Name) → count d placed + count d l ≤ count d (keys m.nodes)
      room d = omega (arith, fits d, count-append d l (concat ls))

      known : (d : Name) → Occurs d l → Occurs d (keys s.manager.nodes)
      known d o =
          subst (λ (k : Manager). Occurs d (keys k.nodes)) (sym part.manager)
            (omega (arith, room d))

      nodes : s.manager.nodes ≡ m.nodes
      nodes = ap (λ (k : Manager). k.nodes) part.manager

      -- What a layer's modules were asked, behind those that are up.
      joined_calls :
          (more : List Name) (z : World)
          → z ≡ behind (by_init mods ctx) s.manager.nodes more s.world
          → z ≡ behind (by_init mods ctx) m.nodes (part.names ++ more) w0
      joined_calls more z o =
          o
          ∙ ap₂ (λ ns y. behind (by_init mods ctx) ns more y) nodes part.calls
          ∙ sym (behind-append (by_init mods ctx) m.nodes part.names more w0)

      answered :
          (more : List Name)
          → answers (by_init mods ctx) m.nodes (part.names ++ more) w0
            ≡ answers (by_init mods ctx) m.nodes part.names w0
              ++ answers (by_init mods ctx) s.manager.nodes more s.world
      answered more =
          answers-append (by_init mods ctx) m.nodes part.names more w0
          ∙ ap (◌++◌ (answers (by_init mods ctx) m.nodes part.names w0))
              (sym (ap₂ (λ ns y. answers (by_init mods ctx) ns more y) nodes part.calls))

      step :
          (v : Option Err × At mods)
          → Layer mods ctx l s v.0 v.1
          → Rest m w0 l ls placed
          → let w = or_abort mods ctx v (start_layers mods ctx ls) in Launched m w0 w.0 w.1
      step (none, s2) (Layer.all_up more e p p' o a) ih =
          ih s2 (λ d. omega (arith, fits d, count-append d placed l, count-append d l (concat ls)))
            lay.2
            (record {
              names = part.names ++ more;
              manager = p' ∙ ap (λ (z : Manager). with_started (z.started ++ more) z) part.manager;
              perm = Perm.append part.perm p;
              backed = IsBacked-append m.nodes [] part.names more part.backed (
                  All-of_Occurs (DepsIn m.nodes part.names) more λ d o.
                    DepsIn-mono m.nodes placed part.names d
                      (λ x u. omega (arith, count-perm x part.perm))
                      (All-Occurs (DepsIn m.nodes placed) l d lay.0
                        (omega (arith, count-perm d p))));
              calls = joined_calls more s2.world o;
              quiet = subst (All Quiet) (sym (answered more)) (
                  All-append Quiet (answers (by_init mods ctx) m.nodes part.names w0)
                    (answers (by_init mods ctx) s.manager.nodes more s.world) part.quiet a);
            })
      step (some x, s2) (Layer.all_up more e p q o a) ih = cc
      step (none, s2) (Layer.some_up tried more e c p q k r h g o u a) ih = cc
      step (some x, s2) (Layer.some_up tried more e c p q k r h g o u a) ih =
          abort-Launched m w0 s2 (part.names ++ more) (part.names ++ tried) e x
            (q ∙ ap (λ (z : Manager). with_started (z.started ++ more) z) part.manager)
            (Partly-WellFormed m placed l more part.names room is_map part.perm k)
            (subst (λ (z : Manager). Reason mods ctx z.nodes e) part.manager r)
            (λ t y. ground (arith, h t y))
            (ap₂ (◌++◌) (sym (risen-Quiet (by_init mods ctx) m.nodes part.names w0 part.quiet)) u
              ∙ sym (
                  risen-append (answers (by_init mods ctx) m.nodes part.names w0)
                    (answers (by_init mods ctx) s.manager.nodes tried s.world))
              ∙ ap risen (sym (answered tried)))
            (joined_calls tried s2.world o)
            (subst (All (Told (some x))) (sym (answered tried)) (
              All-append (Told (some x)) (answers (by_init mods ctx) m.nodes part.names w0)
                (answers (by_init mods ctx) s.manager.nodes tried s.world)
                (Quiet-Told (some x) (answers (by_init mods ctx) m.nodes part.names w0) part.quiet)
                a))

      go :
          (c : Option Err)
          → context_err mods ctx s.world ≡ c
          → Rest m w0 l ls placed
          → let w =
              or_abort mods ctx
                (c, s)
                (λ s1. or_abort mods ctx (start_layer mods ctx l s1) (start_layers mods ctx ls)) in
            Launched m w0 w.0 w.1
      go (some e) c ih =
          abort-Launched m w0 s part.names part.names e e part.manager
            (subst (λ z. WellFormed (with_started z m)) (append-nil part.names)
              (Partly-WellFormed m placed l [] part.names room is_map part.perm (λ d. omega arith)))
            (inl (s.world, c)) (λ t h. h)
            (sym (risen-Quiet (by_init mods ctx) m.nodes part.names w0 part.quiet)) part.calls
            (Quiet-Told (some e) (answers (by_init mods ctx) m.nodes part.names w0) part.quiet)
      go none c ih = step (start_layer mods ctx l s) (start_layer-Layer mods ctx l s known) ih
