-- ===== src/Manager/Teardown.antt =====
-- `stopLayers` and `Stop`: the teardown, in layers.
use appmod.Common.{
  Name, name_eqb, List, [], ◌∷◌, ◌++◌, Option, none, some, Bool, not, count, select, map, reverse,
  if◌then◌else◌, ltb,
}
use appmod.Errors.{Err, wrapped, module_failed_to_stop, teardown_aborted, join}
use appmod.Base.Environment.{Ctx}
use appmod.Manager.Defs.{Node, Nodes, Manager, find_node, stopped}
use appmod.Manager.Plan.{plan, Planned, layers_of, refused}
use appmod.Manager.Modules.{Modules, Sys, context_err}

abbrev pub reverse_serial : List Name → List (List Name)
reverse_serial started = map (λ x. x ∷ []) (reverse started)

abbrev pub without : Name → List Name → List Name
without x = select (λ y. not (name_eqb y x))

abbrev pub holds : List Name → Name → Bool
holds pending x = ltb 0 (count x pending)

-- The names of a layer that are pending, and what is pending behind them.
unfoldable pub pick : List Name → List Name → List Name × List Name
pick pending [] = ([], pending)
pick pending (x ∷ xs) =
    let (layer, rest) = pick (if holds pending x then without x pending else pending) xs in
    ((if holds pending x then x ∷ layer else layer), rest)

-- An empty layer is left out.
abbrev pub cons_layer : List Name → List (List Name) → List (List Name)
cons_layer [] ls = ls
cons_layer (x ∷ xs) ls = (x ∷ xs) ∷ ls

unfoldable pub pick_layers : List Name → List (List Name) → List (List Name) × List Name
unfolding pick
pick_layers pending [] = ([], pending)
pick_layers pending (l ∷ ls) =
    let (layer, rest) = pick pending l in
    let (layers, end) = pick_layers rest ls in (cons_layer layer layers, end)

-- What was started and is in no layer comes last, one at a time.
abbrev pub leftovers : List Name → List Name → List (List Name)
leftovers started pending = reverse_serial (select (holds pending) started)

unfoldable pub planned_stop_layers : List Name → Planned → List (List Name)
unfolding pick_layers
planned_stop_layers started (refused e) = reverse_serial started
planned_stop_layers started (layers_of ls) =
    let (layers, pending) = pick_layers started (reverse ls) in layers ++ leftovers started pending

unfoldable pub stop_layers : Nodes → List Name → List (List Name)
unfolding planned_stop_layers plan
stop_layers ns started = planned_stop_layers started (plan ns)

unfoldable pub forget : Name → Manager → Manager
forget name m = record m { started = without name m.started }

module _ (mods : Modules) where
  open mods use {World, destroy_module, arrange, end_shutdown}

  abbrev pub At : Type 0
  At = Sys World

  abbrev pub stop_failure : Name → Option Err → List (Name × Err)
  stop_failure name none = []
  stop_failure name (some e) = (name, wrapped (module_failed_to_stop name) e) ∷ []

  -- One goroutine of `stopLayer`. A name with no node is passed over.
  unfoldable pub stop_node : Ctx → Name → Option Node → At → List (Name × Err) × At
  unfolding forget
  stop_node ctx name none s = ([], s)
  stop_node ctx name (some n) s =
      let (res, w) = destroy_module n.handle ctx s.world in
      (stop_failure name res, record { world = w; manager = forget name s.manager })

  unfoldable pub stop_each : Ctx → List Name → At → List (Name × Err) × At
  unfolding stop_node find_node
  stop_each ctx [] s = ([], s)
  stop_each ctx (x ∷ xs) s =
      let (errs, s') = stop_node ctx x (find_node x s.manager.nodes) s in
      let (more, s'') = stop_each ctx xs s' in (errs ++ more, s'')

  -- `errs[i]`, for the name at `i`.
  abbrev pub failures_of : Name → List (Name × Err) → List Err
  failures_of x [] = []
  failures_of x ((y, e) ∷ es) = if name_eqb y x then e ∷ failures_of x es else failures_of x es

  -- In the order of the layer, whichever goroutine finished first.
  abbrev pub in_layer_order : List Name → List (Name × Err) → List Err
  in_layer_order [] es = []
  in_layer_order (x ∷ xs) es = failures_of x es ++ in_layer_order xs es

  unfoldable pub stop_layer : Ctx → List Name → At → List Err × At
  unfolding stop_each
  stop_layer ctx layer s =
      let (errs, s') = stop_each ctx (arrange s.world layer) s in (in_layer_order layer errs, s')

  unfoldable pub stop_each_layer : Ctx → List (List Name) → At → List Err × At
  unfolding stop_layer
  stop_each_layer ctx [] s = ([], s)
  stop_each_layer ctx (l ∷ ls) s = elim (context_err mods ctx s.world) [
    | some e ↦ (wrapped teardown_aborted e ∷ [], s)
    | none ↦
        let (errs, s') = stop_layer ctx l s in
        let (more, s'') = stop_each_layer ctx ls s' in (errs ++ more, s'')
  ]

  abbrev pub announced : At → At
  announced s = record {
    world = end_shutdown s.world;
    manager = record (s.manager) { state = stopped };
  }

  -- `Stop`. With nothing started there are no layers.
  unfoldable pub stop_started : Ctx → List Name → At → Option Err × At
  unfolding stop_layers stop_each_layer
  stop_started ctx [] s = (none, s)
  stop_started ctx (x ∷ xs) s =
      let (errs, s') = stop_each_layer ctx (stop_layers s.manager.nodes (x ∷ xs)) s in
      (join errs, s')

  unfoldable pub stop : Ctx → At → Option Err × At
  unfolding stop_started
  stop ctx s = stop_started ctx s.manager.started (announced s)
