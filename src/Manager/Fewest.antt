-- ===== src/Manager/Fewest.antt =====
-- `plan` makes as few layers as the dependencies allow.
use appmod.Common.{
  ℕ, zero, suc, ◌≤◌, Name, List, [], ◌∷◌, ◌++◌, some, length, select, count, count-append, ◌≡◌,
  refl, sym, arith, Occurs, All, subst, inl, inr,
}
use appmod.Common.Counts.{All-Occurs, zero_or_pos}
use appmod.Manager.Defs.{Node, Nodes, keys, find_node}
use appmod.Manager.Counting.{IsMap, absent}
use appmod.Manager.Known.{find_node_cases, waits-find_node}
use appmod.Manager.Plan.{plan, Planned, layers_of}
use appmod.Manager.Ready.{next_layer, rounds, count-next_layer}
use appmod.Manager.Rounds.{rounds_nil, rounds_cons}
use appmod.Manager.Layers.{
  DepsIn, Outcome, placed_all, unknown, stuck, plan-Outcome, layers_of-injective,
}

-- Any way of starting the modules in rounds: what is started in a round is registered, its
-- dependencies were started before, and in the end all modules are.
abbrev pub IsSchedule : Nodes → List Name → List (List Name) → Type 0
IsSchedule ns placed [] = (d : Name) → Occurs d (keys ns) → Occurs d placed
IsSchedule ns placed (l ∷ ls) =
    All (λ d. Occurs d (keys ns)) l × All (DepsIn ns placed) l × IsSchedule ns (placed ++ l) ls

none_absent :
    (placed deps : List Name)
    → All (λ x. Occurs x placed) deps
    → length (select (absent placed) deps) ≡ 0
none_absent placed [] a = refl
none_absent placed (x ∷ xs) (o, a) = ground (arith, none_absent placed xs a)

nothing : (l : List Name) → ((d : Name) → count d l ≡ 0) → l ≡ []
nothing [] h = refl
nothing (x ∷ xs) h = absurd (ground (arith, h x))

module _ (ns : Nodes) (is_map : IsMap ns) where
  -- A registered module whose dependencies are placed is placed with the next layer.
  catches_up :
      (placed : List Name) (d : Name)
      → Occurs d (keys ns)
      → ((n : Node) → find_node d ns ≡ some n → All (λ x. Occurs x placed) n.deps)
      → Occurs d (placed ++ next_layer ns placed)
  catches_up placed d o h = elim (find_node_cases d ns) [
    | inl (p, q) ↦ absurd (omega (arith, o, q))
    | inr (n, p, q) ↦ ground (
      arith,
      o,
      count-append d placed (next_layer ns placed),
      count-next_layer ns placed d,
      waits-find_node ns placed d n (is_map d) p,
      none_absent placed n.deps (h n p),
    )
  ]

  All-more :
      (a b ds : List Name)
      → ((d : Name) → Occurs d a → Occurs d b)
      → All (λ x. Occurs x a) ds
      → All (λ x. Occurs x b) ds
  All-more a b [] h u = tt
  All-more a b (x ∷ xs) h (o, u) = (h x o, All-more a b xs h u)

  -- The rounds of `plan` are not behind any schedule.
  not_behind :
      (placed others l : List Name)
      → ((d : Name) → Occurs d others → Occurs d placed)
      → All (λ d. Occurs d (keys ns)) l
      → All (DepsIn ns others) l
      → (d : Name) → Occurs d (others ++ l)
      → Occurs d (placed ++ next_layer ns placed)
  not_behind placed others l h k a d o = elim (zero_or_pos (count d others)) [
    | inr p ↦ omega (arith, h d p, count-append d placed (next_layer ns placed))
    | inl e ↦
        let u : Occurs d l = omega (arith, o, e, count-append d others l) in
        catches_up placed d (All-Occurs _ l d k u)
          (λ n f. All-more others placed n.deps h (All-Occurs (DepsIn ns others) l d a u n f))
  ]

  rounds-le :
      (fuel : ℕ) (placed others : List Name) (ls : List (List Name))
      → ((d : Name) → Occurs d others → Occurs d placed)
      → IsSchedule ns others ls
      → length (rounds fuel ns placed) ≤ length ls
  rounds-le fuel placed others [] h s =
      rw
        (rounds_nil fuel ns placed (
          sym (
            nothing (next_layer ns placed)
              (λ d. ground (arith, count-next_layer ns placed d, s d, h d)))))
        (omega arith)
  rounds-le zero placed others (l ∷ ls) h s = unfold rounds in omega arith
  rounds-le (suc fuel) placed others (l ∷ ls) h (k, a, s) =
      go (next_layer ns placed) refl (rounds-le fuel)
    where
      go :
          (nl : List Name)
          → nl ≡ next_layer ns placed
          → ((p o : List Name) (ms : List (List Name))
              → ((d : Name) → Occurs d o → Occurs d p)
              → IsSchedule ns o ms
              → length (rounds fuel ns p) ≤ length ms)
          → length (rounds (suc fuel) ns placed) ≤ suc (length ls)
      go [] e ih = rw (rounds_nil (suc fuel) ns placed e) (omega arith)
      go (x ∷ xs) e ih = rw (rounds_cons fuel ns placed x xs e) (
          omega (
            arith,
            ih (placed ++ x ∷ xs) (others ++ l) ls
                (λ d o.
                  subst (λ m. Occurs d (placed ++ m)) (sym e)
                    (not_behind placed others l h k a d o))
                s,
          ))

  -- If no name is registered twice and `plan` returns layers, then it returns no more layers than
  -- there are rounds in any way of starting the registered modules, each behind its dependencies.
  pub plan-fewest :
      (ls schedule : List (List Name))
      → plan ns ≡ layers_of ls
      → IsSchedule ns [] schedule
      → length ls ≤ length schedule
  plan-fewest ls schedule p s = go (plan ns) (plan-Outcome ns is_map) p
    where
      go : (q : Planned) → Outcome ns q → q ≡ layers_of ls → length ls ≤ length schedule
      go _ (unknown e h) q = cc
      go _ (stuck h t) q = cc
      go _ (placed_all h t) q =
          subst (λ m. length m ≤ length schedule) (layers_of-injective q)
            (rounds-le (length ns) [] [] schedule (λ d o. o) s)
