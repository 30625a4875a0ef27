-- ===== src/Manager/Startup.antt =====
-- `Start`, `abort`, and `Health`.
use appmod.Common.{ℕ, Name, List, [], ◌∷◌, ◌++◌, Option, none, some, Bool, true, false, length}
use appmod.Errors.{
  Err, sentinel, wrapped, module_failed_to_start, module_unhealthy, modules_still_started,
  already_started, join,
}
use appmod.Base.Environment.{Ctx, detached}
use appmod.Manager.Defs.{
  Node, Nodes, Manager, ManagerState, created, starting, running, stopped, find_node, set_state,
}
use appmod.Manager.Plan.{plan, Planned, layers_of, refused}
use appmod.Manager.Modules.{Modules, context_err}
use appmod.Manager.Teardown.{At, stop}

abbrev pub can_start : ManagerState → Bool
can_start created = true
can_start stopped = true
can_start starting = false
can_start running = false

unfoldable pub begin_idle : List Name → Manager → Option Err × Manager
begin_idle [] m = (none, record m { state = starting })
begin_idle (x ∷ xs) m =
    (some (wrapped (modules_still_started (length (x ∷ xs))) (sentinel already_started)), m)

unfoldable pub begin_start : Manager → Option Err × Manager
unfolding begin_idle
begin_start m = elim (can_start m.state) [
  | false ↦ (some (sentinel already_started), m)
  | true ↦ begin_idle m.started m
]

module _ (mods : Modules) where
  open mods use {World, init_module, inject, arrange, checks_health, health_check}

  -- Every module that can take the shared context gets it.
  unfoldable pub inject_each : Nodes → World → World
  inject_each [] w = w
  inject_each ((name, n) ∷ ns) w = inject_each ns (inject n.handle w)

  unfoldable pub inject_context : At mods → At mods
  unfolding inject_each
  inject_context s = record s { world = inject_each s.manager.nodes s.world }

  -- What a goroutine of `startLayer` does with what `Init` returned.
  unfoldable pub started_or_failed : Name → Option Err × World → Manager → List Err × At mods
  started_or_failed name (some e, w) m =
      (wrapped (module_failed_to_start name) e ∷ [], record { world = w; manager = m })
  started_or_failed name (none, w) m =
      ([], record { world = w; manager = record m { started = m.started ++ name ∷ [] } })

  -- One goroutine of `startLayer`. Every name of a layer is registered.
  unfoldable pub start_node : Ctx → Name → Option Node → At mods → List Err × At mods
  unfolding started_or_failed
  start_node ctx name none s = ([], s)
  start_node ctx name (some n) s =
      started_or_failed name (init_module n.handle ctx s.world) s.manager

  unfoldable pub start_each : Ctx → List Name → At mods → List Err × At mods
  unfolding start_node find_node
  start_each ctx [] s = ([], s)
  start_each ctx (x ∷ xs) s =
      let (errs, s') = start_node ctx x (find_node x s.manager.nodes) s in
      let (more, s'') = start_each ctx xs s' in (errs ++ more, s'')

  unfoldable pub start_layer : Ctx → List Name → At mods → Option Err × At mods
  unfolding start_each
  start_layer ctx layer s =
      let (errs, s') = start_each ctx (arrange s.world layer) s in (join errs, s')

  abbrev pub abort_cause : Err → Option Err → Option Err
  abort_cause cause none = some cause
  abort_cause cause (some e) = join (cause ∷ e ∷ [])

  unfoldable pub abort : Ctx → Err → At mods → Option Err × At mods
  unfolding stop
  abort ctx cause s = let (res, s') = stop mods (detached ctx) s in (abort_cause cause res, s')

  -- The rest of `Start`, unless there was an error.
  unfoldable pub or_abort :
      Ctx → Option Err × At mods → (At mods → Option Err × At mods) → Option Err × At mods
  unfolding abort
  or_abort ctx (some e, s) k = abort ctx e s
  or_abort ctx (none, s) k = k s

  unfoldable pub start_layers : Ctx → List (List Name) → At mods → Option Err × At mods
  unfolding or_abort start_layer set_state
  start_layers ctx [] s = (none, record s { manager = set_state running s.manager })
  start_layers ctx (l ∷ ls) s =
      or_abort ctx (context_err mods ctx s.world, s)
        λ s1. or_abort ctx (start_layer ctx l s1) λ s2. start_layers ctx ls s2

  unfoldable pub start_planned : Ctx → Planned → At mods → Option Err × At mods
  unfolding start_layers inject_context set_state
  start_planned ctx (refused e) s = (some e, record s { manager = set_state stopped s.manager })
  start_planned ctx (layers_of ls) s = start_layers ctx ls (inject_context s)

  unfoldable pub start_begun : Ctx → World → Option Err × Manager → Option Err × At mods
  unfolding start_planned plan
  start_begun ctx w (some e, m) = (some e, record { world = w; manager = m })
  start_begun ctx w (none, m) = start_planned ctx (plan m.nodes) (record { world = w; manager = m })

  unfoldable pub start : Ctx → At mods → Option Err × At mods
  unfolding start_begun begin_start
  start ctx s = start_begun ctx s.world (begin_start s.manager)

  -- The modules that `Health` probes, in start order.
  abbrev pub probe_if : Bool → Name → ℕ → List (Name × ℕ)
  probe_if false name h = []
  probe_if true name h = (name, h) ∷ []

  abbrev pub probe_of : Name → Option Node → List (Name × ℕ)
  probe_of name none = []
  probe_of name (some n) = probe_if (checks_health n.handle) name n.handle

  unfoldable pub probes : Nodes → List Name → List (Name × ℕ)
  unfolding find_node
  probes ns [] = []
  probes ns (x ∷ xs) = probe_of x (find_node x ns) ++ probes ns xs

  abbrev pub unhealthy : Name → Option Err → List Err
  unhealthy name none = []
  unhealthy name (some e) = wrapped (module_unhealthy name) e ∷ []

  unfoldable pub probe_each : Ctx → List (Name × ℕ) → World → List Err × World
  probe_each ctx [] w = ([], w)
  probe_each ctx ((name, h) ∷ ps) w =
      let (res, w') = health_check h ctx w in
      let (more, w'') = probe_each ctx ps w' in (unhealthy name res ++ more, w'')

  unfoldable pub health : Ctx → At mods → Option Err × At mods
  unfolding probes probe_each
  health ctx s =
      let (errs, w) = probe_each ctx (probes s.manager.nodes s.manager.started) s.world in
      (join errs, record s { world = w })
