-- ===== src/Manager/Plan.antt =====
-- `plan` and `validateDeps`: the dependency layers, by counting unmet dependencies.
use appmod.Common.{
  ℕ, zero, suc, ◌+◌, ◌-◌, Name, name_discrete, List, [], ◌∷◌, ◌++◌, Option, none, some, ite, length,
  select, ◌==◌, if◌then◌else◌,
}
use appmod.Common.Sort.{sort_names}
use appmod.Errors.{Err, sentinel, wrapped, depends_on, unknown_dependency, dependency_cycle, join}
use appmod.Manager.Defs.{Nodes, find_node, keys}

-- A map from names, with the zero value for a name that it lacks.
abbrev pub update {ℓ} : {A : Type ℓ} → (Name → A) → Name → A → Name → A
update f k v x = ite (name_discrete x k) v (f x)

-- The dependencies of one module that are not registered.
unfoldable pub unknown_in : Nodes → Name → List Name → List Err
unfolding find_node
unknown_in ns name [] = []
unknown_in ns name (d ∷ ds) = elim (find_node d ns) [
  | some n ↦ unknown_in ns name ds
  | none ↦ wrapped (depends_on name d) (sentinel unknown_dependency) ∷ unknown_in ns name ds
]

unfoldable pub unknown_deps : Nodes → Nodes → List Err
unfolding unknown_in
unknown_deps ns [] = []
unknown_deps ns ((name, n) ∷ rest) = unknown_in ns name n.deps ++ unknown_deps ns rest

unfoldable pub validate_deps : Nodes → Option Err
unfolding unknown_deps
validate_deps ns = join (unknown_deps ns ns)

-- How many dependencies of a module have not been placed, and who waits for a module.
pub record Graph : Type 0 where
  pub indeg : Name → ℕ
  pub dependents : Name → List Name

unfoldable pub add_dependent : Name → Name → Graph → Graph
add_dependent name dep g = record g {
  dependents = update g.dependents dep (g.dependents dep ++ name ∷ []);
}

unfoldable pub add_deps : Name → List Name → Graph → Graph
unfolding add_dependent
add_deps name [] g = g
add_deps name (d ∷ ds) g = add_deps name ds (add_dependent name d g)

unfoldable pub add_nodes : Nodes → Graph → Graph
unfolding add_deps
add_nodes [] g = g
add_nodes ((name, n) ∷ ns) g =
    add_nodes ns (add_deps name n.deps (record g { indeg = update g.indeg name (length n.deps) }))

unfoldable pub graph_of : Nodes → Graph
unfolding add_nodes
graph_of ns = add_nodes ns (record { indeg = λ _. 0; dependents = λ _. [] })

pub record Progress : Type 0 where
  pub indeg : Name → ℕ
  pub next : List Name

-- `indeg[dep]--`, and `dep` is due if that leaves 0. Go's counter could fall below 0, where this
-- one stays at 0, but then it would never reach 0 again: `dep` is due exactly if 1 was left.
unfoldable pub release : Name → Progress → Progress
release dep p = record {
  indeg = update p.indeg dep (p.indeg dep - 1);
  next = if p.indeg dep == 1 then p.next ++ dep ∷ [] else p.next;
}

unfoldable pub release_all : List Name → Progress → Progress
unfolding release
release_all [] p = p
release_all (d ∷ ds) p = release_all ds (release d p)

-- The loop over one layer.
unfoldable pub visit_layer : (Name → List Name) → List Name → Progress → Progress
unfolding release_all
visit_layer dependents [] p = p
visit_layer dependents (x ∷ xs) p = visit_layer dependents xs (release_all (dependents x) p)

-- `for len(current) > 0`, on fuel: the layers, and how many modules they hold.
unfoldable pub layers_loop :
    ℕ → (Name → List Name) → (Name → ℕ) → List Name → List (List Name) → ℕ → List (List Name) × ℕ
unfolding visit_layer sort_names
layers_loop fuel dependents indeg [] layers processed = (layers, processed)
layers_loop zero dependents indeg (x ∷ xs) layers processed = (layers, processed)
layers_loop (suc fuel) dependents indeg (x ∷ xs) layers processed =
    let p = visit_layer dependents (x ∷ xs) (record { indeg = indeg; next = [] }) in
    layers_loop fuel dependents p.indeg (sort_names p.next) (layers ++ (x ∷ xs) ∷ [])
      (processed + length (x ∷ xs))

pub data Planned : Type 0 where
  layers_of : List (List Name) → Planned
  refused : Err → Planned

unfoldable pub first_layer : Nodes → (Name → ℕ) → List Name
unfolding sort_names
first_layer ns indeg = sort_names (select (λ name. indeg name == 0) (keys ns))

-- A layer is never empty, so one round for each module is enough.
unfoldable pub plan_layers : Nodes → List (List Name) × ℕ
unfolding graph_of first_layer layers_loop
plan_layers ns =
    let g = graph_of ns in
    layers_loop (length ns) g.dependents g.indeg (first_layer ns g.indeg) [] 0

unfoldable pub check_processed : Nodes → List (List Name) × ℕ → Planned
check_processed ns (layers, processed) =
    if processed == length ns then layers_of layers else refused (sentinel dependency_cycle)

unfoldable pub plan_valid : Nodes → Option Err → Planned
unfolding plan_layers check_processed
plan_valid ns (some e) = refused e
plan_valid ns none = check_processed ns (plan_layers ns)

unfoldable pub plan : Nodes → Planned
unfolding validate_deps plan_valid
plan ns = plan_valid ns (validate_deps ns)
