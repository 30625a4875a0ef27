-- ===== src/Manager/Launching.antt =====
-- `Start`, from the claim of the manager on: every way in which it ends.
use mathlib.Core.List.Perm
use appmod.Common.{
  Name, List, [], ◌∷◌, Option, some, Bool, true, false, length, ◌≡◌, refl, sym, ap, arith,
  count-perm,
}
use appmod.Errors.{Err, sentinel, wrapped, already_started, modules_still_started}
use appmod.Base.Environment.{Ctx}
use appmod.Manager.Defs.{set_state, starting, stopped}
use appmod.Manager.Plan.{plan, Planned, layers_of, refused}
use appmod.Manager.Counting.{IsMap}
use appmod.Manager.Layers.{plan-IsLayered}
use appmod.Manager.Modules.{Modules}
use appmod.Manager.Teardown.{At}
use appmod.Manager.Starting.{Launched, start_layers-Launched}
use appmod.Manager.Startup.{
  can_start, begin_idle, begin_start, inject_each, inject_context, start_planned, start_begun,
  start,
}

module _ (mods : Modules) (ctx : Ctx) where
  open mods use {World}

  -- The four ways in which `Start` ends.
  pub data Answered (s : At mods) (res : Option Err) (s' : At mods) : Type 0 where
    busy :
        can_start s.manager.state ≡ false
        → res ≡ some (sentinel already_started)
        → s' ≡ s
        → Answered s res s'
    left_over :
        can_start s.manager.state ≡ true
        → ¬ (s.manager.started ≡ [])
        → res
          ≡ some (
              wrapped (modules_still_started (length s.manager.started)) (sentinel already_started))
        → s' ≡ s
        → Answered s res s'
    unplanned :
        (e : Err)
        → can_start s.manager.state ≡ true
        → s.manager.started ≡ []
        → plan s.manager.nodes ≡ refused e
        → res ≡ some e
        → s' ≡ record s { manager = set_state stopped s.manager }
        → Answered s res s'
    launched :
        (ls : List (List Name))
        → can_start s.manager.state ≡ true
        → s.manager.started ≡ []
        → plan s.manager.nodes ≡ layers_of ls
        → Launched mods ctx
            (record (s.manager) { state = starting })
            (inject_each mods s.manager.nodes s.world)
            res
            s'
        → Answered s res s'

  -- `Start` of a manager that it can claim.
  start_planned-Answered :
      (s : At mods)
      → IsMap s.manager.nodes
      → can_start s.manager.state ≡ true
      → s.manager.started ≡ []
      → (p : Planned) → plan s.manager.nodes ≡ p
      → let w = start_planned mods ctx p (record s { manager = set_state starting s.manager }) in
        Answered s w.0 w.1
  unfolding start_planned inject_context set_state
  start_planned-Answered s is_map c idle (refused e) h = unplanned e c idle h refl refl
  start_planned-Answered s is_map c idle (layers_of ls) h =
      let (closed, perm, lay) = plan-IsLayered s.manager.nodes ls is_map h in
      launched ls c idle h (
        start_layers-Launched mods ctx (record (s.manager) { state = starting })
          (inject_each mods s.manager.nodes s.world) is_map ls [] _
          (λ d. omega (arith, count-perm d perm)) lay
          (record {
            names = [];
            manager = ap (λ l. record (s.manager) { state = starting; started = l }) idle;
            perm = Perm.nil;
            backed = tt;
            calls = refl;
            quiet = tt;
          }))

  -- If no name is registered twice, `Start` ends in one of four ways. It refuses a manager that is
  -- starting or running, or one with modules left over from a failed teardown, and changes
  -- nothing. It is refused by the plan, which leaves the manager stopped and nothing else changed.
  -- It returns nil: the context of the application was handed out, then `Init` of every registered
  -- module was called once, behind those of its dependencies, and answered nil, and nothing else
  -- happened outside; the manager is running, and its started modules are these, in this order. Or
  -- it returns an error: behind the context of the application, `Init` of some modules was called,
  -- one behind the other, and what went on from there is `Stop`, under the detached context, of a
  -- manager whose started modules are exactly those of them that answered nil; each error of an
  -- `Init` and of this teardown is part of what `Start` returns, and so is one that the context or a
  -- module's `Init` reported; and the manager is stopped with no module started.
  pub start-Answered :
      (s : At mods) → IsMap s.manager.nodes → let w = start mods ctx s in Answered s w.0 w.1
  unfolding start start_begun begin_start begin_idle set_state
  start-Answered s is_map = go (can_start s.manager.state) refl
    where
      claim :
          (l : List Name)
          → s.manager.started ≡ l
          → can_start s.manager.state ≡ true
          → let w = start_begun mods ctx s.world (begin_idle l s.manager) in Answered s w.0 w.1
      claim [] q c = start_planned-Answered s is_map c q (plan s.manager.nodes) refl
      claim (x ∷ xs) q c =
          left_over c (λ k. cc)
            (ap (λ l. some (wrapped (modules_still_started (length l)) (sentinel already_started)))
              (sym q))
            refl

      go :
          (b : Bool)
          → can_start s.manager.state ≡ b
          → let w = start_begun mods ctx s.world (elim b [
            | false ↦ (some (sentinel already_started), s.manager)
            | true ↦ begin_idle s.manager.started s.manager
          ]) in
            Answered s w.0 w.1
      go false c = busy c refl refl
      go true c = claim s.manager.started refl c
