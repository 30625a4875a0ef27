-- ===== src/Manager/Invariance.antt =====
-- What the modules keep holds in every history of the manager.
use appmod.Common.{ℕ, Name, List, [], ◌∷◌, Option, none, some, Bool, true, false, ◌≡◌, refl}
use appmod.Errors.{Err, sentinel, already_started}
use appmod.Base.Environment.{Ctx, detached}
use appmod.Manager.Defs.{
  Node, Nodes, Manager, find_node, register, register_node, begin_run, claim_run, new_manager,
  set_state,
}
use appmod.Manager.Plan.{plan, Planned, layers_of, refused}
use appmod.Manager.Modules.{Modules}
use appmod.Manager.Teardown.{At}
use appmod.Manager.Startup.{
  can_start, begin_idle, begin_start, inject_each, inject_context, abort, start_layers,
  start_planned, start_begun, start, probes, probe_each, health,
}
use appmod.Manager.Running.{wait_and_stop, or_wait, run_claimed, run, trigger_shutdown}
use appmod.Manager.Soundness.{IsSound, IsNew, apply_options-IsNew}
use appmod.Manager.Histories.{
  Program, Later, now, then_one, Step, registers, starts, stops, probed, runs, shuts_down,
  elsewhere, Reached, made, after,
}
use appmod.Manager.Counting.{IsMap}
use appmod.Manager.Reaching.{Step-IsSound, Reached-IsSound}
use appmod.Manager.Climbing.{Kept, Due, Due-plan, start_layers-by}
use appmod.Manager.Keeping.{Keeps, Holds, stop-Holds}

module _ (mods : Modules) (k : Keeps mods) where
  open mods use {World, arrange, arrange-perm}
  open k use {P}

  start_layers-Holds :
      (ctx : Ctx) (ls : List (List Name)) (s : At mods)
      → Due mods k ls [] s
      → Holds mods k s
      → Kept mods k (start_layers mods ctx ls s)
  unfolding abort set_state
  start_layers-Holds ctx ls s =
      start_layers-by mods k ctx (Kept mods k) (λ t h. h)
        (λ e t h. stop-Holds mods k (detached ctx) t h) ls [] s

  pub inject_each-P :
      (rest ns : Nodes) (started : List Name) (w : World)
      → P ns started w
      → P ns started (inject_each mods rest w)
  unfolding inject_each
  inject_each-P [] ns started w h = h
  inject_each-P ((x, n) ∷ rest) ns started w h =
      inject_each-P rest ns started _ (k.injects ns started w n.handle h)

  start_planned-Holds :
      (ctx : Ctx) (p : Planned) (s : At mods)
      → IsMap s.manager.nodes
      → plan s.manager.nodes ≡ p
      → Holds mods k s
      → Kept mods k (start_planned mods ctx p s)
  unfolding start_planned inject_context set_state
  start_planned-Holds ctx (refused e) s is_map q h = h
  start_planned-Holds ctx (layers_of ls) s is_map q h =
      start_layers-Holds ctx ls _ (Due-plan mods k ls (inject_context mods s) is_map q)
        (inject_each-P s.manager.nodes _ _ s.world h)

  pub start-Holds :
      (ctx : Ctx) (s : At mods)
      → IsMap s.manager.nodes
      → Holds mods k s
      → Kept mods k (start mods ctx s)
  unfolding start start_begun begin_start begin_idle
  start-Holds ctx s is_map h = go (can_start s.manager.state)
    where
      idle : (l : List Name) → Kept mods k (start_begun mods ctx s.world (begin_idle l s.manager))
      idle [] = start_planned-Holds ctx (plan s.manager.nodes) _ is_map refl h
      idle (x ∷ xs) = h

      go :
          (b : Bool)
          → Kept mods k (
              start_begun mods ctx s.world (elim b [
                | false ↦ (some (sentinel already_started), s.manager)
                | true ↦ begin_idle s.manager.started s.manager
              ]))
      go false = h
      go true = idle s.manager.started

  register-Holds :
      (name : Name) (module' : Option ℕ) (deps : List Name) (s : At mods)
      → Holds mods k s
      → Holds mods k (record s { manager = (register name module' deps s.manager).1 })
  unfolding register register_node
  register-Holds [] module' deps s h = h
  register-Holds (c ∷ cs) none deps s h = h
  register-Holds (c ∷ cs) (some m) deps s h = go (find_node (c ∷ cs) s.manager.nodes) refl
    where
      go :
          (o : Option Node)
          → find_node (c ∷ cs) s.manager.nodes ≡ o
          → Holds mods k (record s { manager = (register_node (c ∷ cs) m deps o s.manager).1 })
      go (some n) f = h
      go none f = k.added _ _ _ (c ∷ cs) _ h f

  probe_each-P :
      (ctx : Ctx) (ps : List (Name × ℕ)) (ns : Nodes) (started : List Name) (w : World)
      → P ns started w
      → P ns started (probe_each mods ctx ps w).1
  unfolding probe_each
  probe_each-P ctx [] ns started w h = h
  probe_each-P ctx ((x, m) ∷ ps) ns started w h =
      probe_each-P ctx ps ns started _ (k.checks ns started w m ctx h)

  run-Holds :
      (ctx : Ctx) (s : At mods)
      → IsMap s.manager.nodes
      → Holds mods k s
      → Kept mods k (run mods ctx s)
  unfolding run begin_run wait_and_stop
  run-Holds ctx s is_map h = go s.manager.ran
    where
      wait : (r : Option Err × At mods) → Kept mods k r → Kept mods k (or_wait mods ctx r)
      wait (some e, s1) u = u
      wait (none, s1) u =
          let w = mods.await_shutdown ctx s1.world in
          stop-Holds mods k (mods.teardown_ctx ctx w) (record s1 { world = w })
            (k.awaits s1.manager.nodes s1.manager.started s1.world ctx u)

      go : (b : Bool) → Kept mods k (run_claimed mods ctx s.world (claim_run b s.manager))
      go true = h
      go false =
          let s0 : At mods = record s { manager = record (s.manager) { ran = true } } in
          wait (start mods ctx s0) (start-Holds ctx s0 is_map h)

  module _ (program : Program mods)
      (others : (ns : Nodes) (started : List Name) (w w' : World)
        → program.other w w'
        → P ns started w
        → P ns started w') where
    Step-Holds :
        (s s' : At mods)
        → Step mods program s s'
        → IsSound s.manager
        → Holds mods k s
        → Holds mods k s'
    unfolding health trigger_shutdown
    Step-Holds s _ (registers name module' deps) v h = register-Holds name module' deps s h
    Step-Holds s _ (starts ctx) v h = start-Holds ctx s v.is_map h
    Step-Holds s _ (stops ctx) v h = stop-Holds mods k ctx s h
    Step-Holds s _ (probed ctx) v h =
        probe_each-P ctx (probes mods s.manager.nodes s.manager.started) _ _ s.world h
    Step-Holds s _ (runs ctx) v h = run-Holds ctx s v.is_map h
    Step-Holds s _ shuts_down v h = k.ends _ _ s.world h
    Step-Holds s _ (elsewhere w o) v h = others _ _ s.world w o h

    Later-IsSound :
        (s s' : At mods) → Later mods program s s' → IsSound s.manager → IsSound s'.manager
    Later-IsSound s _ now v = v
    Later-IsSound s s' (then_one s1 _ l t) v =
        Step-IsSound mods program s1 s' t (Later-IsSound s s1 l v)

    pub Later-Holds :
        (s s' : At mods)
        → Later mods program s s'
        → IsSound s.manager
        → Holds mods k s
        → Holds mods k s'
    Later-Holds s _ now v h = h
    Later-Holds s s' (then_one s1 _ l t) v h =
        Step-Holds s1 s' t (Later-IsSound s s1 l v) (Later-Holds s s1 l v h)

    module _ (begins : (w : World) → program.initial w → P [] [] w) where
      new-P : (m : Manager) (w : World) → IsNew m → P [] [] w → P m.nodes m.started w
      new-P m w (n, st, c) h = rw (n, st) h

      pub Reached-Holds : (s : At mods) → Reached mods program s → Holds mods k s
      unfolding new_manager
      Reached-Holds _ (made w discard opts i p) =
          new-P (new_manager discard opts) w (apply_options-IsNew opts _ p (refl, refl, refl))
            (begins w i)
      Reached-Holds s (after s0 _ r t) =
          Step-Holds s0 s t (Reached-IsSound mods program s0 r) (Reached-Holds s0 r)
