-- ===== src/Manager/Cycles.antt =====
-- `ErrDependencyCycle` is returned for a cycle, and only for one.
use appmod.Common.{
  ℕ, zero, suc, ◌+◌, ◌<◌, Name, List, [], ◌∷◌, some, length, select, count, ◌≡◌, refl, ap, arith,
  Occurs, inl, inr, count-select, ◌≢◌, if◌then◌else◌,
}
use appmod.Common.Counts.{All-Occurs, rest_of_count}
use appmod.Errors.{Err, sentinel, dependency_cycle, join}
use appmod.Manager.Defs.{Node, Nodes, find_node, keys}
use appmod.Manager.Plan.{validate_deps, plan, Planned, layers_of, refused, unknown_deps}
use appmod.Manager.Counting.{absent, IsMap}
use appmod.Manager.Known.{
  waits-find_node, unmet, IsClosed, validate_deps_lem, find_node_cases, IsClosed-find_node,
}
use appmod.Manager.Ready.{next_layer, count-next_layer, total}
use appmod.Manager.Rounds.{rounds_of}
use appmod.Manager.Layers.{
  concat, length-concat, length-keys, Finished, rounds_of-Finished, Outcome, unknown, placed_all,
  stuck, plan-Outcome, total-le,
}

-- A module with a dependency in the set.
pub record Waiting (ns : Nodes) (set : List Name) (d : Name) : Type 0 where
  pub node : Node
  pub found : find_node d ns ≡ some node
  pub dep : Name
  pub declared : Occurs dep node.deps
  pub in_set : Occurs dep set

-- Modules that wait for one another: none of them can be the first to start.
pub record IsCyclic (ns : Nodes) (set : List Name) : Type 0 where
  pub member : Name
  pub inhabited : Occurs member set
  pub waiting : (d : Name) → Occurs d set → Waiting ns set d

-- The modules that the rounds did not place.
unfoldable pub left_over : Nodes → List Name
left_over ns = select (absent (concat (rounds_of ns))) (keys ns)

module _ (ns : Nodes) (is_map : IsMap ns) (closed : IsClosed ns ns)
    (short : ¬ (total (rounds_of ns) ≡ length ns)) where
  fin : Finished ns [] (length ns) (rounds_of ns)
  fin = rounds_of-Finished ns is_map

  no_next : next_layer ns (concat (rounds_of ns)) ≡ []
  no_next = elim fin.ended [
    | inl e ↦ e
    | inr e ↦ absurd (short (omega (arith, total-le ns is_map)))
  ]

  count-left_over :
      (d : Name)
      → count d (left_over ns) ≡ (if absent (concat (rounds_of ns)) d then count d (keys ns) else 0)
  unfolding left_over
  count-left_over d = count-select d (absent (concat (rounds_of ns))) (keys ns)

  -- Some module was not placed.
  someone : (d : Name) × Occurs d (left_over ns)
  someone =
      let (zs, c, n) = rest_of_count (concat (rounds_of ns)) (keys ns) fin.inv.once in go zs c n
    where
      go :
          (zs : List Name)
          → ((d : Name) → count d (keys ns) ≡ count d (concat (rounds_of ns)) + count d zs)
          → length (keys ns) ≡ length (concat (rounds_of ns)) + length zs
          → (d : Name) × Occurs d (left_over ns)
      go [] c n = absurd (short (omega (arith, length-concat (rounds_of ns), length-keys ns)))
      go (z ∷ zs) c n = (z, ground (arith, c z, is_map z, count-left_over z))

  waiting : (d : Name) → Occurs d (left_over ns) → Waiting ns (left_over ns) d
  waiting d o = elim (find_node_cases d ns) [
    | inl (e, z) ↦ absurd (ground (arith, count-left_over d))
    | inr (n, e, k) ↦
        let (x, u, z) = unmet (concat (rounds_of ns)) n.deps (
          ground (
            arith,
            count-left_over d,
            count-next_layer ns (concat (rounds_of ns)) d,
            ap (count d) no_next,
            waits-find_node ns (concat (rounds_of ns)) d n (is_map d) e,
          )) in
        let reg =
          All-Occurs (λ y. Occurs y (keys ns)) n.deps x (IsClosed-find_node ns ns d n closed e) u in
        record {
          node = n;
          found = e;
          dep = x;
          declared = u;
          in_set = ground (arith, count-left_over x);
        }
  ]

  left_over-IsCyclic : IsCyclic ns (left_over ns)
  left_over-IsCyclic = record { member = someone.0; inhabited = someone.1; waiting = waiting }

validate-ne-sentinel : (ns : Nodes) → validate_deps ns ≢ some (sentinel dependency_cycle)
unfolding validate_deps
validate-ne-sentinel ns = go (unknown_deps ns ns)
  where
    go : (es : List Err) → join es ≢ some (sentinel dependency_cycle)
    go [] h = cc
    go (e ∷ es) h = cc

-- If no name is registered twice and `plan` reports a cycle, then every dependency is registered,
-- and the modules that it could not place wait for one another: there is one, and each has a
-- dependency among them.
pub plan-IsCyclic :
    (ns : Nodes)
    → IsMap ns
    → plan ns ≡ refused (sentinel dependency_cycle)
    → IsClosed ns ns × IsCyclic ns (left_over ns)
plan-IsCyclic ns is_map = go (plan ns) (plan-Outcome ns is_map)
  where
    go :
        (p : Planned)
        → Outcome ns p
        → p ≡ refused (sentinel dependency_cycle)
        → IsClosed ns ns × IsCyclic ns (left_over ns)
    go _ (unknown e h) q = absurd (validate-ne-sentinel ns (cc))
    go _ (placed_all h t) q = cc
    go _ (stuck h t) q =
        let closed = (validate_deps_lem ns).0 h in (closed, left_over-IsCyclic ns is_map closed t)

-- Every module stands above its dependencies.
abbrev pub IsRanked : (Name → ℕ) → Nodes → Type 0
IsRanked rank ns =
    (d : Name) (n : Node) (x : Name) → find_node d ns ≡ some n → Occurs x n.deps → rank x < rank d

descend :
    (rank : Name → ℕ) (ns : Nodes) (set : List Name)
    → IsRanked rank ns
    → ((d : Name) → Occurs d set → Waiting ns set d)
    → (k : ℕ) (d : Name) → Occurs d set
    → rank d < k
    → ⊥
descend rank ns set ranked w zero d o h = elim h [ ]
descend rank ns set ranked w (suc k) d o h =
    let v = w d o in
    descend rank ns set ranked w k v.dep v.in_set
      (omega (arith, ranked d v.node v.dep v.found v.declared))

-- If no name is registered twice, and every dependency is registered and has a lower rank than the
-- modules that declare it, then `plan` returns layers.
pub plan_of_rank :
    (rank : Name → ℕ) (ns : Nodes)
    → IsMap ns
    → IsRanked rank ns
    → IsClosed ns ns
    → (ls : List (List Name)) × (plan ns ≡ layers_of ls)
plan_of_rank rank ns is_map ranked closed = go (plan ns) (plan-Outcome ns is_map)
  where
    go : (p : Planned) → Outcome ns p → (ls : List (List Name)) × (p ≡ layers_of ls)
    go _ (unknown e h) = cc ((validate_deps_lem ns).1 closed)
    go _ (placed_all h t) = (rounds_of ns, refl)
    go _ (stuck h t) =
        let c = left_over-IsCyclic ns is_map closed t in
        absurd (
          descend rank ns (left_over ns) ranked c.waiting (suc (rank c.member)) c.member c.inhabited
            (omega arith))
