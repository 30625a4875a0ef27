-- ===== src/Manager/Rounds.antt =====
-- `plan` computes the layers by their definition.
use appmod.Common.{
  ℕ, zero, suc, ◌+◌, ◌≤◌, ◌<◌, Name, List, [], ◌∷◌, ◌++◌, Option, none, some, length, select, ◌==◌,
  if◌then◌else◌, count, count-append, ◌≡◌, refl, sym, ap, ◌∙◌, arith, ◌&&◌, append_assoc,
  append-nil, ap₂, subst, fun_ext,
}
use appmod.Common.Sort.{sort_names, count-sort_names, sort_names-IsSorted, sorted_ext}
use appmod.Errors.{Err, sentinel, dependency_cycle}
use appmod.Manager.Defs.{Nodes, keys}
use appmod.Manager.Plan.{
  Progress, graph_of, visit_layer, layers_loop, first_layer, plan_layers, check_processed,
  validate_deps, plan, plan_valid, Planned, layers_of, refused,
}
use appmod.Manager.Counting.{
  uses, uses_all, waits, waits-append, IsMap, due, graph_of-indeg, graph_of-dependents,
  visit_layer-indeg, visit_layer-next, waits_of_not_key,
}
use appmod.Manager.Ready.{
  is_ready, next_layer, rounds, total, count-next_layer, next_layer-IsSorted, Placed,
  next_layer-Fresh, Placed-next_layer,
}

-- A counter reaches 0 exactly for what becomes ready: `w` dependencies were unmet, `u` of them
-- are met by the layer and `w'` are left; `p` and `c` tell whether the name was placed before
-- and in this layer, and `k` whether it is registered.
due_if_ready :
    (w w' u p c k : ℕ)
    → w ≡ w' + u
    → c ≡ (if p == 0 && w == 0 then k else 0)
    → k ≤ 1
    → (0 < p → w ≡ 0)
    → (k ≡ 0 → w ≡ 0)
    → due w u ≡ (if p + c == 0 && w' == 0 then k else 0)
due_if_ready w w' u p c k e f g h i = ground arith

module _ (ns : Nodes) (is_map : IsMap ns) (placed : List Name) (inv : Placed ns placed)
    (dependents : Name → List Name) (indeg : Name → ℕ)
    (counted : (x d : Name) → count d (dependents x) ≡ uses ns d x)
    (left : (d : Name) → indeg d ≡ waits ns placed d) where
  abbrev visited : Progress
  visited = visit_layer dependents (next_layer ns placed) (record { indeg = indeg; next = [] })

  enough : (d : Name) → uses_all ns (next_layer ns placed) d ≤ indeg d
  enough d = omega (
    arith,
    left d,
    waits-append ns placed (next_layer ns placed) d (next_layer-Fresh ns is_map placed inv),
  )

  indeg_after : (d : Name) → visited.indeg d ≡ waits ns (placed ++ next_layer ns placed) d
  indeg_after d = omega (
    arith,
    left d,
    waits-append ns placed (next_layer ns placed) d (next_layer-Fresh ns is_map placed inv),
    visit_layer-indeg ns dependents d (λ x. counted x d) (next_layer ns placed)
        (record { indeg = indeg; next = [] }) (enough d),
  )

  next-count :
      (d : Name)
      → count d visited.next
        ≡ (if is_ready ns (placed ++ next_layer ns placed) d then count d (keys ns) else 0)
  next-count d =
      let layer = next_layer ns placed in
      let u = uses_all ns layer d in
      let w' = waits ns (placed ++ layer) d in
      let k = count d (keys ns) in
      visit_layer-next ns dependents d (λ x. counted x d) layer
        (record { indeg = indeg; next = [] }) (enough d)
      ∙ omega (arith, ap (λ z. due z u) (left d))
      ∙ due_if_ready (waits ns placed d) w' u (count d placed) (count d layer) k
          (waits-append ns placed layer d (next_layer-Fresh ns is_map placed inv))
          (count-next_layer ns placed d) (is_map d) (inv.met d) (waits_of_not_key ns placed d)
      ∙ ap (λ z. if z == 0 && w' == 0 then k else 0) (sym (count-append d placed layer))

  next_after : sort_names visited.next ≡ next_layer ns (placed ++ next_layer ns placed)
  next_after = sorted_ext _ _ (sort_names-IsSorted visited.next) (next_layer-IsSorted ns _) λ d.
      count-sort_names d visited.next
      ∙ next-count d
      ∙ sym (count-next_layer ns (placed ++ next_layer ns placed) d)

-- What holds behind a round that visited `layer`.
record After (ns : Nodes) (dependents : Name → List Name) (indeg : Name → ℕ)
    (placed layer : List Name) : Type 0 where
  inv : Placed ns (placed ++ layer)
  left :
      (d : Name)
      → (visit_layer dependents layer (record { indeg = indeg; next = [] })).indeg d
        ≡ waits ns (placed ++ layer) d
  next :
      sort_names (visit_layer dependents layer (record { indeg = indeg; next = [] })).next
      ≡ next_layer ns (placed ++ layer)

pub rounds_nil :
    (fuel : ℕ) (ns : Nodes) (placed : List Name)
    → [] ≡ next_layer ns placed
    → rounds fuel ns placed ≡ []
unfolding rounds
rounds_nil zero ns placed e = refl
rounds_nil (suc fuel) ns placed e = rw (← e, rounds)

pub rounds_cons :
    (fuel : ℕ) (ns : Nodes) (placed : List Name) (x : Name) (xs : List Name)
    → x ∷ xs ≡ next_layer ns placed
    → rounds (suc fuel) ns placed ≡ (x ∷ xs) ∷ rounds fuel ns (placed ++ x ∷ xs)
unfolding rounds
rounds_cons fuel ns placed x xs e = rw (← e, rounds)

abbrev Yield : Type 0
Yield = List (List Name) × ℕ

-- What the loop has, followed by the rest of the rounds.
abbrev extended : List (List Name) → ℕ → List (List Name) → Yield
extended layers processed ls = (layers ++ ls, processed + total ls)

extended_nil :
    (layers : List (List Name)) (processed : ℕ)
    → ◌≡◌ {A = Yield} (layers, processed) (extended layers processed [])
extended_nil layers processed =
    ap₂ {C = Yield} (λ a b. (a, b)) (sym (append-nil layers)) (omega arith)

extended_cons :
    (layers : List (List Name)) (processed : ℕ) (l : List Name) (ls : List (List Name))
    → extended (layers ++ l ∷ []) (processed + length l) ls ≡ extended layers processed (l ∷ ls)
extended_cons layers processed l ls =
    ap₂ {C = Yield} (λ a b. (a, b)) (append_assoc layers (l ∷ []) ls) (omega arith)

-- The loop of `plan` yields the rounds.
layers_loop-rounds :
    (ns : Nodes) (is_map : IsMap ns) (dependents : Name → List Name)
    → ((x d : Name) → count d (dependents x) ≡ uses ns d x)
    → (fuel : ℕ) (placed : List Name) (indeg : Name → ℕ) (current : List Name)
      (layers : List (List Name)) (processed : ℕ)
    → Placed ns placed
    → ((d : Name) → indeg d ≡ waits ns placed d)
    → current ≡ next_layer ns placed
    → layers_loop fuel dependents indeg current layers processed
      ≡ extended layers processed (rounds fuel ns placed)
unfolding layers_loop
layers_loop-rounds ns is_map dependents counted fuel placed indeg [] layers processed inv left e =
    extended_nil layers processed
    ∙ ap (extended layers processed) (sym (rounds_nil fuel ns placed e))
layers_loop-rounds ns is_map dependents counted zero placed indeg (x ∷ xs) layers processed inv left
      e =
    unfold rounds in extended_nil layers processed
layers_loop-rounds ns is_map dependents counted (suc fuel) placed indeg (x ∷ xs) layers processed
      inv left e =
    let p = visit_layer dependents (x ∷ xs) (record { indeg = indeg; next = [] }) in
    let after = subst (After ns dependents indeg placed) (sym e) found in
    layers_loop-rounds ns is_map dependents counted fuel (placed ++ x ∷ xs) p.indeg
      (sort_names p.next) (layers ++ (x ∷ xs) ∷ []) (processed + length (x ∷ xs)) after.inv
      after.left after.next
    ∙ extended_cons layers processed (x ∷ xs) _
    ∙ ap (extended layers processed) (sym (rounds_cons fuel ns placed x xs e))
  where
    found : After ns dependents indeg placed (next_layer ns placed)
    found = record {
      inv = Placed-next_layer ns is_map placed inv;
      left = indeg_after ns is_map placed inv dependents indeg counted left;
      next = next_after ns is_map placed inv dependents indeg counted left;
    }

pub Placed-nil : (ns : Nodes) → Placed ns []
Placed-nil ns = record { met = λ d h. absurd (omega arith); once = λ d. omega arith }

abbrev pub rounds_of : Nodes → List (List Name)
rounds_of ns = rounds (length ns) ns []

plan_layers-rounds : (ns : Nodes) → IsMap ns → plan_layers ns ≡ (rounds_of ns, total (rounds_of ns))
unfolding plan_layers
plan_layers-rounds ns is_map =
    layers_loop-rounds ns is_map (graph_of ns).dependents (graph_of-dependents ns) (length ns) []
      (graph_of ns).indeg (first_layer ns (graph_of ns).indeg) [] 0 (Placed-nil ns)
      (λ d. graph_of-indeg ns d (is_map d)) first
    ∙ ap₂ {C = Yield} (λ a b. (a, b)) refl (omega arith)
  where
    first : first_layer ns (graph_of ns).indeg ≡ next_layer ns []
    first =
        unfold next_layer in
        ap (λ t. sort_names (select t (keys ns))) (fun_ext λ d. rw (graph_of-indeg ns d (is_map d)))

-- The plan by its definition: no plan with an unknown dependency, or if the rounds do not place
-- every module, which only a cycle prevents.
abbrev pub spec_plan : Nodes → Option Err → Planned
spec_plan ns (some e) = refused e
spec_plan ns none =
    if total (rounds_of ns) == length ns
    then layers_of (rounds_of ns)
    else refused (sentinel dependency_cycle)

-- If no name is registered twice, counting unmet dependencies yields the same plan as taking, round after round, the sorted names
-- of the modules whose dependencies were all placed in earlier rounds.
pub plan-rounds : (ns : Nodes) → IsMap ns → plan ns ≡ spec_plan ns (validate_deps ns)
unfolding plan
plan-rounds ns is_map = go (validate_deps ns)
  where
    go : (v : Option Err) → plan_valid ns v ≡ spec_plan ns v
    go (some e) = refl
    go none =
        unfold plan_valid check_processed in ap (check_processed ns) (plan_layers-rounds ns is_map)
