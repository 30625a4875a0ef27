-- ===== src/Manager/Known.antt =====
-- `validateDeps`, and what the counts say of a module that is looked up.
use appmod.Common.{
  ◌≤◌, ◌<◌, Name, name_discrete, List, [], ◌∷◌, ◌++◌, none, some, length, select, count, ◌≡◌, refl,
  arith, ◌↔◌, All, Occurs, ◌⊎◌, inl, inr, subst,
}
use appmod.Errors.{Err, join}
use appmod.Manager.Defs.{Node, Nodes, find_node, keys}
use appmod.Manager.Plan.{unknown_in, unknown_deps, validate_deps}
use appmod.Manager.Counting.{waits, absent, waits_of_not_key}

pub find_node_cases :
    (d : Name) (ns : Nodes)
    → ((find_node d ns ≡ none) × (count d (keys ns) ≡ 0))
      ⊎ ((n : Node) × (find_node d ns ≡ some n) × Occurs d (keys ns))
unfolding find_node
find_node_cases d [] = inl (refl, refl)
find_node_cases d ((j, n) ∷ ns) = elim (name_discrete d j) [
  | yes e ↦ inr (n, ground arith, ground arith)
  | no e ↦ elim (find_node_cases d ns) [
    | inl (p, q) ↦ inl (ground arith, ground arith)
    | inr (m, p, q) ↦ inr (m, ground arith, ground arith)
  ]
]

-- The unmet dependencies of a module that is registered once.
pub waits-find_node :
    (ns : Nodes) (placed : List Name) (d : Name) (n : Node)
    → count d (keys ns) ≤ 1
    → find_node d ns ≡ some n
    → waits ns placed d ≡ length (select (absent placed) n.deps)
unfolding find_node
waits-find_node [] placed d n m e = cc
waits-find_node ((j, k) ∷ ns) placed d n m e =
    ground (arith, waits-find_node ns placed d n, waits_of_not_key ns placed d)

pub met-All :
    (placed ds : List Name) → length (select (absent placed) ds) ≡ 0 → All (λ x. Occurs x placed) ds
met-All placed [] h = tt
met-All placed (d ∷ ds) h = (ground arith, met-All placed ds (ground arith))

-- A dependency that is not placed.
pub unmet :
    (placed ds : List Name)
    → 0 < length (select (absent placed) ds)
    → (x : Name) × Occurs x ds × (count x placed ≡ 0)
unmet placed [] h = absurd (omega arith)
unmet placed (d ∷ ds) h = elim (find placed d) [
  | inl z ↦ (d, ground arith, z)
  | inr p ↦ let (x, o, z) = unmet placed ds (ground arith) in (x, ground arith, z)
]
  where
    find : (ps : List Name) (e : Name) → (count e ps ≡ 0) ⊎ Occurs e ps
    find ps e = grind arith

unknown_in-nil :
    (ns : Nodes) (name : Name) (ds : List Name)
    → unknown_in ns name ds ≡ []
    → All (λ x. Occurs x (keys ns)) ds
unfolding unknown_in
unknown_in-nil ns name [] h = tt
unknown_in-nil ns name (d ∷ ds) h = elim (find_node_cases d ns) [
  | inl (p, q) ↦ absurd (ground arith)
  | inr (m, p, q) ↦ (q, unknown_in-nil ns name ds (ground arith))
]

unknown_in_of_All :
    (ns : Nodes) (name : Name) (ds : List Name)
    → All (λ x. Occurs x (keys ns)) ds
    → unknown_in ns name ds ≡ []
unfolding unknown_in
unknown_in_of_All ns name [] h = refl
unknown_in_of_All ns name (d ∷ ds) h = elim (find_node_cases d ns) [
  | inl (p, q) ↦ absurd (omega arith)
  | inr (m, p, q) ↦ ground (arith, unknown_in_of_All ns name ds h.1)
]

-- Every dependency of every module is registered.
abbrev pub IsClosed : Nodes → Nodes → Type 0
IsClosed ns = All (λ e. All (λ x. Occurs x (keys ns)) e.1.deps)

append-eq-nil : {A : Type 0} (xs ys : List A) → xs ++ ys ≡ [] → (xs ≡ []) × (ys ≡ [])
append-eq-nil [] ys h = (refl, h)
append-eq-nil (x ∷ xs) ys h = cc

unknown_deps-nil : (ns rest : Nodes) → (unknown_deps ns rest ≡ []) ↔ IsClosed ns rest
unfolding unknown_deps
unknown_deps-nil ns [] = ((λ h. tt), (λ h. refl))
unknown_deps-nil ns ((j, n) ∷ rest) = (
  (λ h.
      let (a, b) = append-eq-nil (unknown_in ns j n.deps) (unknown_deps ns rest) h in
      (unknown_in-nil ns j n.deps a, (unknown_deps-nil ns rest).0 b)),
  (λ h. rw (unknown_in_of_All ns j n.deps h.0) ((unknown_deps-nil ns rest).1 h.1)),
)

join-none : (es : List Err) → (join es ≡ none) ↔ (es ≡ [])
join-none [] = ((λ h. refl), (λ h. refl))
join-none (e ∷ es) = ((λ h. cc), (λ h. cc))

-- `validateDeps` finds nothing wrong exactly if every dependency is registered.
pub validate_deps_lem : (ns : Nodes) → (validate_deps ns ≡ none) ↔ IsClosed ns ns
unfolding validate_deps
validate_deps_lem ns = (
  (λ h. (unknown_deps-nil ns ns).0 ((join-none (unknown_deps ns ns)).0 h)),
  (λ h. (join-none (unknown_deps ns ns)).1 ((unknown_deps-nil ns ns).1 h)),
)

pub IsClosed-find_node :
    (ns rest : Nodes) (d : Name) (n : Node)
    → IsClosed ns rest
    → find_node d rest ≡ some n
    → All (λ x. Occurs x (keys ns)) n.deps
unfolding find_node
IsClosed-find_node ns [] d n c e = cc
IsClosed-find_node ns ((j, m) ∷ rest) d n c e = elim (name_discrete d j) [
  | yes p ↦
      let same : m ≡ n = ground arith in
      subst (λ (k : Node). All (λ x. Occurs x (keys ns)) k.deps) same c.0
  | no p ↦ IsClosed-find_node ns rest d n c.1 (ground arith)
]
