-- ===== src/Manager/Reaching.antt =====
-- The managers that a program can have between two operations.
use appmod.Common.{
  some, none, ◌≤◌, Name, [], Option, count, ◌≡◌, refl, sym, ap, arith, count-append, count-perm,
  subst,
}
use appmod.Errors.{Err}
use appmod.Base.Environment.{Ctx}
use appmod.Manager.Defs.{Manager, starting, stopped, begin_run, new_manager, set_state}
use appmod.Manager.Layers.{concat}
use appmod.Manager.Modules.{Modules}
use appmod.Manager.Teardown.{At, stop}
use appmod.Manager.StopLayers.{concat-append, stop_layers-perm}
use appmod.Manager.Stopping.{WellFormed, Stopped, stop-Stopped}
use appmod.Manager.Startup.{start, health}
use appmod.Manager.Starting.{Launched}
use appmod.Manager.Running.{run, wait_and_stop, or_wait, run_claimed, trigger_shutdown}
use appmod.Manager.Histories.{
  Program, Step, registers, starts, stops, probed, runs, shuts_down, elsewhere, Reached, made,
  after,
}
use appmod.Manager.Launching.{Answered, start-Answered}
use appmod.Manager.Soundness.{
  IsSound, apply_options-IsNew, IsNew-IsSound, register-IsSound, begin_run-IsSound, fewer-IsSound,
  up-IsSound,
}

-- Nothing that `Stop` left was not started before.
Stopped-le :
    (mods : Modules) (ctx : Ctx) (s s' : At mods) (res : Option Err)
    → WellFormed s.manager
    → Stopped mods ctx s res s'
    → (d : Name) → count d s'.manager.started ≤ count d s.manager.started
Stopped-le mods ctx s s' res v t d = omega (
  arith,
  count-perm d t.kept,
  count-perm d (stop_layers-perm s.manager.nodes s.manager.started v.distinct),
  ap (λ l. count d (concat l)) t.split,
  ap (count d) (concat-append t.finished t.rest),
  count-append d (concat t.finished) (concat t.rest),
)

pub stop-IsSound :
    (mods : Modules) (ctx : Ctx) (s : At mods)
    → IsSound s.manager
    → IsSound (stop mods ctx s).1.manager
stop-IsSound mods ctx s v =
    let t = stop-Stopped mods ctx s v.well_formed in
    subst IsSound (sym t.others) (
      fewer-IsSound s.manager stopped _ v
        (Stopped-le mods ctx s (stop mods ctx s).1 (stop mods ctx s).0 v.well_formed t) (λ e. cc)
        (λ e. cc))

Launched-IsSound :
    (mods : Modules) (ctx : Ctx) (m : Manager) (w : mods.World) (res : Option Err) (s' : At mods)
    → IsSound m
    → Launched mods ctx (record m { state = starting }) w res s'
    → IsSound s'.manager
Launched-IsSound mods ctx m w res s' v (Launched.up names a b c d f g) =
    subst IsSound (sym b) (up-IsSound m names v c)
Launched-IsSound mods ctx m w res s' v (Launched.down e tried s1 q a b c d f g h i j) =
    subst IsSound (sym a) (fewer-IsSound m stopped [] v (λ d. omega arith) (λ e. cc) (λ e. cc))

pub start-IsSound :
    (mods : Modules) (ctx : Ctx) (s : At mods)
    → IsSound s.manager
    → IsSound (start mods ctx s).1.manager
start-IsSound mods ctx s v =
    go (start mods ctx s).0 (start mods ctx s).1 (start-Answered mods ctx s v.is_map)
  where
    back : (s' : At mods) → s' ≡ s → IsSound s'.manager
    back s' e = subst (λ (x : At mods). IsSound x.manager) (sym e) v

    go : (res : Option Err) (s' : At mods) → Answered mods ctx s res s' → IsSound s'.manager
    go res s' (Answered.busy a b c) = back s' c
    go res s' (Answered.left_over a b c d) = back s' d
    go res s' (Answered.unplanned e a b c d f) =
        subst (λ (x : At mods). IsSound x.manager) (sym f)
          (unfold set_state in
            fewer-IsSound s.manager stopped s.manager.started v (λ d. omega arith) (λ e. cc)
              (λ e. cc))
    go res s' (Answered.launched ls a b c d) = Launched-IsSound mods ctx s.manager _ res s' v d

pub run-IsSound :
    (mods : Modules) (ctx : Ctx) (s : At mods)
    → IsSound s.manager
    → IsSound (run mods ctx s).1.manager
unfolding run wait_and_stop
run-IsSound mods ctx s v = go (begin_run s.manager) (begin_run-IsSound s.manager v)
  where
    wait : (r : Option Err × At mods) → IsSound r.1.manager → IsSound (or_wait mods ctx r).1.manager
    wait (some e, s1) u = u
    wait (none, s1) u =
        let w = mods.await_shutdown ctx s1.world in
        stop-IsSound mods (mods.teardown_ctx ctx w) (record s1 { world = w }) u

    go :
        (r : Option Err × Manager)
        → IsSound r.1
        → IsSound (run_claimed mods ctx s.world r).1.manager
    go (some e, m) u = u
    go (none, m) u =
        let s0 : At mods = record { world = s.world; manager = m } in
        wait (start mods ctx s0) (start-IsSound mods ctx s0 u)

module _ (mods : Modules) (program : Program mods) where
  pub Step-IsSound :
      (s s' : At mods) → Step mods program s s' → IsSound s.manager → IsSound s'.manager
  unfolding health trigger_shutdown
  Step-IsSound s _ (registers name module' deps) v = register-IsSound name module' deps s.manager v
  Step-IsSound s _ (starts ctx) v = start-IsSound mods ctx s v
  Step-IsSound s _ (stops ctx) v = stop-IsSound mods ctx s v
  Step-IsSound s _ (probed ctx) v = v
  Step-IsSound s _ (runs ctx) v = run-IsSound mods ctx s v
  Step-IsSound s _ shuts_down v = v
  Step-IsSound s _ (elsewhere w o) v = v

  -- However its operations follow on one another, no manager ever has a name registered twice, a
  -- module started that is not registered, a module started twice, a start under way when an
  -- operation has ended, or a started module before the first `Start`.
  pub Reached-IsSound : (s : At mods) → Reached mods program s → IsSound s.manager
  unfolding new_manager
  Reached-IsSound _ (made w discard opts i p) =
      IsNew-IsSound _ (apply_options-IsNew opts _ p (refl, refl, refl))
  Reached-IsSound s (after s0 _ r t) = Step-IsSound s0 s t (Reached-IsSound s0 r)
