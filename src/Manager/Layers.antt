-- ===== src/Manager/Layers.antt =====
-- The layers of a plan: they hold every module once, and dependencies come in earlier layers.
use appmod.Common.{
  ℕ, zero, suc, ◌≤◌, Name, List, [], ◌∷◌, ◌++◌, Option, none, some, length, ◌≡◌, refl, sym, ap, ◌∙◌,
  arith, All, Occurs, ◌⊎◌, inl, inr, Perm, ◌==◌, length-append, append_assoc, append-nil, subst,
  leb_name, Bool-cases,
}
use appmod.Common.Counts.{All-of_Occurs, perm_of_count_le, rest_of_count}
use appmod.Common.Sort.{IsSorted}
use appmod.Errors.{Err, sentinel, dependency_cycle}
use appmod.Manager.Defs.{Node, Nodes, find_node, keys}
use appmod.Manager.Plan.{validate_deps, plan, Planned, layers_of, refused}
use appmod.Manager.Counting.{IsMap}
use appmod.Manager.Known.{waits-find_node, met-All, IsClosed, validate_deps_lem}
use appmod.Manager.Ready.{
  Placed, Placed-next_layer, next_layer, next_layer-IsSorted, count-next_layer, rounds, total,
}
use appmod.Manager.Rounds.{Placed-nil, rounds_of, rounds_nil, rounds_cons, spec_plan, plan-rounds}

-- The modules of all layers, in order.
abbrev pub concat : List (List Name) → List Name
concat [] = []
concat (l ∷ ls) = l ++ concat ls

-- All registered dependencies of `d` are in `placed`.
abbrev pub DepsIn : Nodes → List Name → Name → Type 0
DepsIn ns placed d = (n : Node) → find_node d ns ≡ some n → All (λ x. Occurs x placed) n.deps

-- Each layer is sorted, and depends only on what is placed before it.
abbrev pub IsLayered : Nodes → List Name → List (List Name) → Type 0
IsLayered ns placed [] = Unit
IsLayered ns placed (l ∷ ls) =
    All (DepsIn ns placed) l × IsSorted leb_name l × IsLayered ns (placed ++ l) ls

pub length-concat : (ls : List (List Name)) → length (concat ls) ≡ total ls
length-concat [] = refl
length-concat (l ∷ ls) = omega (arith, length-append l (concat ls), length-concat ls)

pub length-keys : (ns : Nodes) → length (keys ns) ≡ length ns
length-keys [] = refl
length-keys (e ∷ ns) = ap suc (length-keys ns)

next_layer-DepsIn :
    (ns : Nodes) (is_map : IsMap ns) (placed : List Name)
    → All (DepsIn ns placed) (next_layer ns placed)
next_layer-DepsIn ns is_map placed =
    All-of_Occurs (DepsIn ns placed) (next_layer ns placed) λ d o n e.
      met-All placed n.deps
        (ground (arith, count-next_layer ns placed d, waits-find_node ns placed d n (is_map d) e))

-- What holds behind the rounds from `placed` on, in at most `fuel` rounds.
pub record Finished (ns : Nodes) (placed : List Name) (fuel : ℕ) (ls : List (List Name))
    : Type 0 where
  pub layered : IsLayered ns placed ls
  pub inv : Placed ns (placed ++ concat ls)
  pub ended : (next_layer ns (placed ++ concat ls) ≡ []) ⊎ (fuel ≤ total ls)

Finished-cons :
    (ns : Nodes) (placed l : List Name) (x : Name) (fuel : ℕ) (ls : List (List Name))
    → All (DepsIn ns placed) (x ∷ l)
    → IsSorted leb_name (x ∷ l)
    → Finished ns (placed ++ x ∷ l) fuel ls
    → Finished ns placed (suc fuel) ((x ∷ l) ∷ ls)
Finished-cons ns placed l x fuel ls d s f = record {
  layered = (d, s, f.layered);
  inv = subst (Placed ns) (append_assoc placed (x ∷ l) (concat ls)) f.inv;
  ended = elim f.ended [
    | inl e ↦ inl (subst (λ p. next_layer ns p ≡ []) (append_assoc placed (x ∷ l) (concat ls)) e)
    | inr e ↦ inr (omega arith)
  ];
}

rounds-Finished :
    (ns : Nodes) (is_map : IsMap ns) (fuel : ℕ) (placed : List Name)
    → Placed ns placed
    → Finished ns placed fuel (rounds fuel ns placed)
rounds-Finished ns is_map zero placed inv =
    unfold rounds in
    record {
      layered = tt;
      inv = subst (Placed ns) (sym (append-nil placed)) inv;
      ended = inr (omega arith);
    }
rounds-Finished ns is_map (suc fuel) placed inv =
    go (next_layer ns placed) refl (rounds-Finished ns is_map fuel)
  where
    go :
        (l : List Name)
        → l ≡ next_layer ns placed
        → ((p : List Name) → Placed ns p → Finished ns p fuel (rounds fuel ns p))
        → Finished ns placed (suc fuel) (rounds (suc fuel) ns placed)
    go [] e ih =
        subst (Finished ns placed (suc fuel)) (sym (rounds_nil (suc fuel) ns placed e)) (record {
          layered = tt;
          inv = subst (Placed ns) (sym (append-nil placed)) inv;
          ended = inl (ap (next_layer ns) (append-nil placed) ∙ sym e);
        })
    go (x ∷ xs) e ih =
        subst (Finished ns placed (suc fuel)) (sym (rounds_cons fuel ns placed x xs e)) (
          Finished-cons ns placed xs x fuel _
            (subst (All (DepsIn ns placed)) (sym e) (next_layer-DepsIn ns is_map placed))
            (subst (IsSorted leb_name) (sym e) (next_layer-IsSorted ns placed))
            (ih (placed ++ x ∷ xs) (
              subst (λ l. Placed ns (placed ++ l)) (sym e)
                (Placed-next_layer ns is_map placed inv))))

pub rounds_of-Finished : (ns : Nodes) → IsMap ns → Finished ns [] (length ns) (rounds_of ns)
rounds_of-Finished ns is_map = rounds-Finished ns is_map (length ns) [] (Placed-nil ns)

pub layers_of-injective : {a b : List (List Name)} → layers_of a ≡ layers_of b → a ≡ b
layers_of-injective h = cc

-- The three ways in which `plan` ends.
pub data Outcome (ns : Nodes) : Planned → Type 0 where
  unknown : (e : Err) → validate_deps ns ≡ some e → Outcome ns (refused e)
  placed_all :
      validate_deps ns ≡ none
      → total (rounds_of ns) ≡ length ns
      → Outcome ns (layers_of (rounds_of ns))
  stuck :
      validate_deps ns ≡ none
      → ¬ (total (rounds_of ns) ≡ length ns)
      → Outcome ns (refused (sentinel dependency_cycle))

pub plan-Outcome : (ns : Nodes) → IsMap ns → Outcome ns (plan ns)
plan-Outcome ns is_map =
    subst (Outcome ns) (sym (plan-rounds ns is_map)) (go (validate_deps ns) refl)
  where
    go : (v : Option Err) → validate_deps ns ≡ v → Outcome ns (spec_plan ns v)
    go (some e) h = unknown e h
    go none h = elim (Bool-cases (total (rounds_of ns) == length ns)) [
      | inl e ↦ rw e (placed_all h (ground arith))
      | inr e ↦ rw e (stuck h (ground arith))
    ]

pub total-le : (ns : Nodes) (is_map : IsMap ns) → total (rounds_of ns) ≤ length ns
total-le ns is_map =
    let (zs, c, n) =
      rest_of_count (concat (rounds_of ns)) (keys ns) (rounds_of-Finished ns is_map).inv.once in
    omega (arith, n, length-concat (rounds_of ns), length-keys ns)

-- If no name is registered twice and `plan` returns layers, then every dependency is registered,
-- every module stands in exactly one layer, each layer is sorted, and each module's dependencies
-- stand in earlier layers.
pub plan-IsLayered :
    (ns : Nodes) (ls : List (List Name))
    → IsMap ns
    → plan ns ≡ layers_of ls
    → IsClosed ns ns × Perm (concat ls) (keys ns) × IsLayered ns [] ls
plan-IsLayered ns ls is_map = go (plan ns) (plan-Outcome ns is_map)
  where
    fin : Finished ns [] (length ns) (rounds_of ns)
    fin = rounds_of-Finished ns is_map

    Good : List (List Name) → Type 0
    Good l = IsClosed ns ns × Perm (concat l) (keys ns) × IsLayered ns [] l

    go : (p : Planned) → Outcome ns p → p ≡ layers_of ls → Good ls
    go _ (unknown e h) q = cc
    go _ (stuck h t) q = cc
    go _ (placed_all h t) q = subst Good (layers_of-injective q) (
      (validate_deps_lem ns).0 h,
      perm_of_count_le (concat (rounds_of ns)) (keys ns) fin.inv.once
          (omega (arith, length-concat (rounds_of ns), length-keys ns)),
      fin.layered,
    )
