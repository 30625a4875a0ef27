-- ===== src/Manager/Order.antt =====
-- The order in which a `range` visits the modules does not matter to `plan`.
use appmod.Common.{
  ℕ, zero, suc, Name, List, [], ◌∷◌, ◌++◌, none, some, All, All-map, length, count, ◌≡◌, refl, sym,
  ap, ◌∙◌, arith, Occurs, inl, inr, ◌⊎◌,
}
use appmod.Common.Counts.{rest_of_count}
use appmod.Common.Sort.{sorted_ext}
use appmod.Manager.Defs.{Node, Nodes, find_node, keys}
use appmod.Manager.Plan.{plan, validate_deps}
use appmod.Manager.Counting.{IsMap, waits, waits_of_not_key}
use appmod.Manager.Known.{
  find_node_cases, waits-find_node, IsClosed, IsClosed-find_node, validate_deps_lem,
}
use appmod.Manager.Ready.{next_layer, rounds, count-next_layer, next_layer-IsSorted}
use appmod.Manager.Rounds.{rounds_of, spec_plan, plan-rounds, rounds_nil, rounds_cons}
use appmod.Manager.Layers.{length-keys}

-- One map of modules, visited in two orders.
pub record IsSameMap (ns ms : Nodes) : Type 0 where
  pub is_map : IsMap ns
  pub is_map' : IsMap ms
  pub same : (d : Name) → find_node d ns ≡ find_node d ms

count-keys : (ns ms : Nodes) → IsSameMap ns ms → (d : Name) → count d (keys ns) ≡ count d (keys ms)
count-keys ns ms e d = go (find_node_cases d ns) (find_node_cases d ms)
  where
    Cases : Nodes → Type 0
    Cases k =
        ((find_node d k ≡ none) × (count d (keys k) ≡ 0))
        ⊎ ((n : Node) × (find_node d k ≡ some n) × Occurs d (keys k))

    go : Cases ns → Cases ms → count d (keys ns) ≡ count d (keys ms)
    go (inl (p, q)) (inl (r, s)) = q ∙ sym s
    go (inl (p, q)) (inr (n, r, s)) = cc (e.same d)
    go (inr (m, p, q)) (inl (r, s)) = cc (e.same d)
    go (inr (m, p, q)) (inr (n, r, s)) = omega (arith, q, s, e.is_map d, e.is_map' d)

waits-same :
    (ns ms : Nodes)
    → IsSameMap ns ms
    → (placed : List Name) (d : Name) → waits ns placed d ≡ waits ms placed d
waits-same ns ms e placed d = elim (find_node_cases d ns) [
  | inl (p, q) ↦
      waits_of_not_key ns placed d q
      ∙ sym (waits_of_not_key ms placed d (sym (count-keys ns ms e d) ∙ q))
  | inr (n, p, q) ↦
      waits-find_node ns placed d n (e.is_map d) p
      ∙ sym (waits-find_node ms placed d n (e.is_map' d) (sym (e.same d) ∙ p))
]

next_layer-same :
    (ns ms : Nodes)
    → IsSameMap ns ms
    → (placed : List Name) → next_layer ns placed ≡ next_layer ms placed
next_layer-same ns ms e placed =
    sorted_ext _ _ (next_layer-IsSorted ns placed) (next_layer-IsSorted ms placed) λ d. ground (
      arith,
      count-next_layer ns placed d,
      count-next_layer ms placed d,
      waits-same ns ms e placed d,
      count-keys ns ms e d,
    )

rounds-same :
    (ns ms : Nodes)
    → IsSameMap ns ms
    → (fuel : ℕ) (placed : List Name) → rounds fuel ns placed ≡ rounds fuel ms placed
unfolding rounds
rounds-same ns ms e zero placed = refl
rounds-same ns ms e (suc fuel) placed = go (next_layer ns placed) refl (rounds-same ns ms e fuel)
  where
    go :
        (l : List Name)
        → l ≡ next_layer ns placed
        → ((p : List Name) → rounds fuel ns p ≡ rounds fuel ms p)
        → rounds (suc fuel) ns placed ≡ rounds (suc fuel) ms placed
    go [] q ih =
        rounds_nil (suc fuel) ns placed q
        ∙ sym (rounds_nil (suc fuel) ms placed (q ∙ next_layer-same ns ms e placed))
    go (x ∷ xs) q ih =
        rounds_cons fuel ns placed x xs q
        ∙ ap (◌∷◌ (x ∷ xs)) (ih (placed ++ x ∷ xs))
        ∙ sym (rounds_cons fuel ms placed x xs (q ∙ next_layer-same ns ms e placed))

length-same : (ns ms : Nodes) → IsSameMap ns ms → length ns ≡ length ms
length-same ns ms e =
    let (zs, c, n) = rest_of_count (keys ns) (keys ms) (λ d. omega (arith, count-keys ns ms e d)) in
    let (ys, c', m) =
      rest_of_count (keys ms) (keys ns) (λ d. omega (arith, count-keys ns ms e d)) in
    omega (arith, n, m, length-keys ns, length-keys ms)

IsClosed-of_find :
    (ns rest : Nodes)
    → IsMap rest
    → ((d : Name) (n : Node) → find_node d rest ≡ some n → All (λ x. Occurs x (keys ns)) n.deps)
    → IsClosed ns rest
unfolding find_node
IsClosed-of_find ns [] m h = tt
IsClosed-of_find ns ((j, k) ∷ rest) m h = (
  h j k (ground arith),
  IsClosed-of_find ns rest (λ d. ground (arith, m d))
      λ d n e. elim (find_node_cases d rest) [
        | inl (p, q) ↦ cc
        | inr (n', p, q) ↦ h d n (ground (arith, m d))
      ],
)

validate_deps-same :
    (ns ms : Nodes) → IsSameMap ns ms → validate_deps ns ≡ none → validate_deps ms ≡ none
validate_deps-same ns ms e h = (validate_deps_lem ms).1 (
    IsClosed-of_find ms ms e.is_map' λ d n f.
      All-map (λ x o. omega (arith, count-keys ns ms e x)) n.deps
        (IsClosed-find_node ns ns d n ((validate_deps_lem ns).0 h) (e.same d ∙ f)))

-- The order in which a `range` visits the map of modules does not change the plan, if every
-- dependency is registered.
pub plan-same : (ns ms : Nodes) → IsSameMap ns ms → validate_deps ns ≡ none → plan ns ≡ plan ms
plan-same ns ms e h =
    plan-rounds ns e.is_map
    ∙ ap (spec_plan ns) h
    ∙ equal
    ∙ sym (ap (spec_plan ms) (validate_deps-same ns ms e h))
    ∙ sym (plan-rounds ms e.is_map')
  where
    all_rounds : rounds_of ns ≡ rounds_of ms
    all_rounds = ap (λ k. rounds k ns []) (length-same ns ms e) ∙ rounds-same ns ms e (length ms) []

    equal : spec_plan ns none ≡ spec_plan ms none
    equal = rw (all_rounds, length-same ns ms e) refl
