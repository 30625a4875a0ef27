-- ===== src/Manager/Counting.antt =====
-- What the counters of `plan` count.
use appmod.Common.{
  ℕ, suc, ◌+◌, ◌≤◌, Name, name_discrete, List, [], ◌∷◌, ◌++◌, Bool, ite, length, select, ◌==◌,
  if◌then◌else◌, count, count-append, ◌≡◌, refl, ap, arith, ◌&&◌, ltb, append_assoc, append-nil,
}
use appmod.Manager.Defs.{Nodes, keys}
use appmod.Manager.Plan.{
  Graph, Progress, update, add_dependent, add_deps, add_nodes, graph_of, release, release_all,
  visit_layer,
}

-- How often `d` depends on `x`.
abbrev pub uses : Nodes → Name → Name → ℕ
uses [] d x = 0
uses ((j, n) ∷ ns) d x = ite (name_discrete d j) (count x n.deps) 0 + uses ns d x

abbrev pub absent : List Name → Name → Bool
absent placed x = count x placed == 0

-- How many dependencies of `d` are not in `placed`.
abbrev pub waits : Nodes → List Name → Name → ℕ
waits [] placed d = 0
waits ((j, n) ∷ ns) placed d =
    ite (name_discrete d j) (length (select (absent placed) n.deps)) 0 + waits ns placed d

-- The same for a whole layer.
abbrev pub uses_all : Nodes → List Name → Name → ℕ
uses_all ns [] d = 0
uses_all ns (x ∷ xs) d = uses ns d x + uses_all ns xs d

-- The entries of a layer are new and differ.
abbrev pub Fresh : List Name → List Name → Type 0
Fresh placed [] = Unit
Fresh placed (x ∷ xs) = (count x placed ≡ 0) × Fresh (placed ++ x ∷ []) xs

select_placed :
    (placed : List Name) (x : Name) (ds : List Name)
    → count x placed ≡ 0
    → length (select (absent placed) ds)
      ≡ length (select (absent (placed ++ x ∷ [])) ds) + count x ds
select_placed placed x [] h = omega arith
select_placed placed x (d ∷ ds) h =
    ground (arith, select_placed placed x ds h, count-append d placed (x ∷ []))

waits_placed :
    (ns : Nodes) (placed : List Name) (x d : Name)
    → count x placed ≡ 0
    → waits ns placed d ≡ waits ns (placed ++ x ∷ []) d + uses ns d x
waits_placed [] placed x d h = omega arith
waits_placed ((j, n) ∷ ns) placed x d h =
    ground (arith, waits_placed ns placed x d h, select_placed placed x n.deps h)

-- Placing a layer takes its uses off the waits.
pub waits-append :
    (ns : Nodes) (placed layer : List Name) (d : Name)
    → Fresh placed layer
    → waits ns placed d ≡ waits ns (placed ++ layer) d + uses_all ns layer d
waits-append ns placed [] d f = omega (arith, ap (λ l. waits ns l d) (append-nil placed))
waits-append ns placed (x ∷ xs) d f = omega (
  arith,
  waits_placed ns placed x d f.0,
  waits-append ns (placed ++ x ∷ []) xs d f.1,
  ap (λ l. waits ns l d) (append_assoc placed (x ∷ []) xs),
)

add_deps-count :
    (name x d : Name) (ds : List Name) (g : Graph)
    → count d ((add_deps name ds g).dependents x)
      ≡ count d (g.dependents x) + ite (name_discrete d name) (count x ds) 0
unfolding add_deps
add_deps-count name x d [] g = ground arith
add_deps-count name x d (e ∷ ds) g = ground (
  arith,
  add_deps-count name x d ds (add_dependent name e g),
  count-append d (g.dependents e) (name ∷ []),
)

add_deps-indeg :
    (name d : Name) (ds : List Name) (g : Graph) → (add_deps name ds g).indeg d ≡ g.indeg d
unfolding add_deps
add_deps-indeg name d [] g = refl
add_deps-indeg name d (e ∷ ds) g = add_deps-indeg name d ds (add_dependent name e g)

add_nodes-count :
    (ns : Nodes) (g : Graph) (x d : Name)
    → count d ((add_nodes ns g).dependents x) ≡ count d (g.dependents x) + uses ns d x
unfolding add_nodes
add_nodes-count [] g x d = omega arith
add_nodes-count ((j, n) ∷ ns) g x d = omega (
  arith,
  add_nodes-count ns _ x d,
  add_deps-count j x d n.deps (record g { indeg = update g.indeg j (length n.deps) }),
)

pub waits_of_not_key :
    (ns : Nodes) (placed : List Name) (d : Name) → count d (keys ns) ≡ 0 → waits ns placed d ≡ 0
waits_of_not_key [] placed d h = refl
waits_of_not_key ((j, n) ∷ ns) placed d h = ground (arith, waits_of_not_key ns placed d)

pub uses_of_not_key :
    (ns : Nodes) (layer : List Name) (d : Name) → count d (keys ns) ≡ 0 → uses_all ns layer d ≡ 0
uses_of_not_key ns [] d h = refl
uses_of_not_key ns (x ∷ xs) d h = omega (arith, none_used ns h, uses_of_not_key ns xs d h)
  where
    none_used : (ms : Nodes) → count d (keys ms) ≡ 0 → uses ms d x ≡ 0
    none_used [] k = refl
    none_used ((j, n) ∷ ms) k = ground (arith, none_used ms)

-- No name stands twice.
abbrev pub IsMap : Nodes → Type 0
IsMap ns = (d : Name) → count d (keys ns) ≤ 1

select_nothing : (ds : List Name) → length (select (absent []) ds) ≡ length ds
select_nothing [] = refl
select_nothing (d ∷ ds) = ap suc (select_nothing ds)

add_nodes-indeg :
    (ns : Nodes) (g : Graph) (d : Name)
    → count d (keys ns) ≤ 1
    → (add_nodes ns g).indeg d ≡ (if count d (keys ns) == 0 then g.indeg d else waits ns [] d)
unfolding add_nodes
add_nodes-indeg [] g d m = refl
add_nodes-indeg ((j, n) ∷ ns) g d m =
    let g1 = record g { indeg = update g.indeg j (length n.deps) } in
    ground (
      arith,
      add_nodes-indeg ns (add_deps j n.deps g1) d,
      add_deps-indeg j d n.deps g1,
      select_nothing n.deps,
      waits_of_not_key ns [] d,
    )

-- The counters that `plan` begins with.
pub graph_of-indeg :
    (ns : Nodes) (d : Name) → count d (keys ns) ≤ 1 → (graph_of ns).indeg d ≡ waits ns [] d
unfolding graph_of
graph_of-indeg ns d m = ground (
  arith,
  add_nodes-indeg ns (record { indeg = λ _. 0; dependents = λ _. [] }) d m,
  waits_of_not_key ns [] d,
)

pub graph_of-dependents :
    (ns : Nodes) (x d : Name) → count d ((graph_of ns).dependents x) ≡ uses ns d x
unfolding graph_of
graph_of-dependents ns x d =
    omega (arith, add_nodes-count ns (record { indeg = λ _. 0; dependents = λ _. [] }) x d)

-- Whether a counter `k` reaches 0 when it is decremented `u` times.
abbrev pub due : ℕ → ℕ → ℕ
due k u = if ltb 0 u && (k == u) then 1 else 0

release_all-indeg :
    (ds : List Name) (p : Progress) (d : Name)
    → count d ds ≤ p.indeg d
    → (release_all ds p).indeg d + count d ds ≡ p.indeg d
unfolding release_all
release_all-indeg [] p d h = omega arith
release_all-indeg (e ∷ ds) p d h = ground (arith, release_all-indeg ds (release e p) d)

release_all-next :
    (ds : List Name) (p : Progress) (d : Name)
    → count d ds ≤ p.indeg d
    → count d (release_all ds p).next ≡ count d p.next + due (p.indeg d) (count d ds)
unfolding release_all
release_all-next [] p d h = omega arith
release_all-next (e ∷ ds) p d h =
    ground (arith, release_all-next ds (release e p) d, count-append d p.next (e ∷ []))

module _ (ns : Nodes) (dependents : Name → List Name) (d : Name)
    (counted : (x : Name) → count d (dependents x) ≡ uses ns d x) where
  pub visit_layer-indeg :
      (xs : List Name) (p : Progress)
      → uses_all ns xs d ≤ p.indeg d
      → (visit_layer dependents xs p).indeg d + uses_all ns xs d ≡ p.indeg d
  unfolding visit_layer
  visit_layer-indeg [] p h = omega arith
  visit_layer-indeg (x ∷ xs) p h = omega (
    arith,
    counted x,
    release_all-indeg (dependents x) p d (omega (arith, counted x)),
    visit_layer-indeg xs (release_all (dependents x) p)
        (omega (arith, counted x, release_all-indeg (dependents x) p d (omega (arith, counted x)))),
  )

  pub visit_layer-next :
      (xs : List Name) (p : Progress)
      → uses_all ns xs d ≤ p.indeg d
      → count d (visit_layer dependents xs p).next
        ≡ count d p.next + due (p.indeg d) (uses_all ns xs d)
  unfolding visit_layer
  visit_layer-next [] p h = omega arith
  visit_layer-next (x ∷ xs) p h =
      let first : count d (dependents x) ≤ p.indeg d = omega (arith, counted x) in
      let left = release_all-indeg (dependents x) p d first in
      ground (
        arith,
        counted x,
        left,
        release_all-next (dependents x) p d first,
        visit_layer-next xs (release_all (dependents x) p) (omega (arith, counted x)),
      )
