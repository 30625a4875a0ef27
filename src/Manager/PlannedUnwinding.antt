-- ===== src/Manager/PlannedUnwinding.antt =====
-- The order of a teardown where the registered modules can be planned.
use mathlib.Core.List.{reverse_aux}
use appmod.Common.{
  ◌+◌, ◌≤◌, Name, List, [], ◌∷◌, ◌++◌, some, count, select, reverse, ◌≡◌, refl, sym, ap, arith,
  Occurs, All, count-append, count-perm, append-nil, subst, ◌==◌, if◌then◌else◌, inl, inr,
}
use appmod.Common.Counts.{zero_or_pos, All-of_Occurs, All-Occurs}
use appmod.Manager.Defs.{Node, Nodes, find_node, keys}
use appmod.Manager.Plan.{plan, layers_of}
use appmod.Manager.Counting.{IsMap}
use appmod.Manager.Layers.{concat, DepsIn, IsLayered, plan-IsLayered}
use appmod.Manager.Backing.{DepsIn-mono}
use appmod.Manager.Teardown.{
  without, holds, pick, cons_layer, pick_layers, leftovers, planned_stop_layers, stop_layers,
  reverse_serial,
}
use appmod.Manager.StopLayers.{IsDistinct, count-without, count-pick}

-- All started modules that depend on `x` are gone.
abbrev pub IsFree : Nodes → (started gone : List Name) → Name → Type 0
IsFree ns started gone x =
    (y : Name) (n : Node)
    → find_node y ns ≡ some n
    → Occurs x n.deps
    → Occurs y started
    → Occurs y gone

-- When the turn of a layer comes, all its modules are free.
abbrev pub IsUnwound : Nodes → (started gone : List Name) → List (List Name) → Type 0
IsUnwound ns started gone [] = Unit
IsUnwound ns started gone (l ∷ ls) =
    All (IsFree ns started gone) l × IsUnwound ns started (gone ++ l) ls

IsUnwound-cons_layer :
    (ns : Nodes) (started gone l : List Name) (ls : List (List Name))
    → All (IsFree ns started gone) l
    → IsUnwound ns started (gone ++ l) ls
    → IsUnwound ns started gone (cons_layer l ls)
IsUnwound-cons_layer ns started gone [] ls a u =
    subst (λ g. IsUnwound ns started g ls) (append-nil gone) u
IsUnwound-cons_layer ns started gone (x ∷ l) ls a u = (a, u)

-- The layers of a plan, the last one first: each depends only on those behind it.
abbrev IsReversed : Nodes → List (List Name) → Type 0
IsReversed ns [] = Unit
IsReversed ns (l ∷ r) = All (DepsIn ns (concat r)) l × IsReversed ns r

IsReversed-reverse_aux :
    (ns : Nodes) (placed : List Name) (ls acc : List (List Name))
    → IsLayered ns placed ls
    → ((d : Name) → count d placed ≡ count d (concat acc))
    → IsReversed ns acc
    → IsReversed ns (reverse_aux ls acc)
IsReversed-reverse_aux ns placed [] acc lay c r = r
IsReversed-reverse_aux ns placed (l ∷ ls) acc lay c r =
    IsReversed-reverse_aux ns (placed ++ l) ls (l ∷ acc) lay.2
      (λ d. omega (arith, c d, count-append d placed l, count-append d l (concat acc)))
      (
        All-of_Occurs (DepsIn ns (concat acc)) l (λ d o.
            DepsIn-mono ns placed (concat acc) d (λ x u. omega (arith, c x))
              (All-Occurs (DepsIn ns placed) l d lay.0 o)),
        r,
      )

count-concat-reverse_aux :
    (d : Name) (ls acc : List (List Name))
    → count d (concat (reverse_aux ls acc)) ≡ count d (concat ls) + count d (concat acc)
count-concat-reverse_aux d [] acc = omega arith
count-concat-reverse_aux d (l ∷ ls) acc = omega (
  arith,
  count-concat-reverse_aux d ls (l ∷ acc),
  count-append d l (concat ls),
  count-append d l (concat acc),
)

-- What a module in these layers depends on is behind the first of them.
IsReversed-DepsIn :
    (ns : Nodes) (l : List Name) (r : List (List Name)) (y : Name)
    → IsReversed ns (l ∷ r)
    → Occurs y (concat (l ∷ r))
    → DepsIn ns (concat r) y
IsReversed-DepsIn ns l [] y v o =
    All-Occurs (DepsIn ns []) l y v.0 (omega (arith, count-append y l []))
IsReversed-DepsIn ns l (m ∷ r) y v o = elim (zero_or_pos (count y l)) [
  | inl e ↦
      DepsIn-mono ns (concat r) (m ++ concat r) y
        (λ x u. omega (arith, count-append x m (concat r)))
        (IsReversed-DepsIn ns m r y v.1 (omega (arith, e, count-append y l (m ++ concat r))))
  | inr e ↦ All-Occurs (DepsIn ns (m ++ concat r)) l y v.0 e
]

count-picked :
    (d : Name) (pending l : List Name)
    → IsDistinct pending
    → count d (pick pending l).0 ≡ (if count d l == 0 then 0 else count d pending)
unfolding pick
count-picked d pending [] u = refl
count-picked d pending (x ∷ xs) u = ground (
  arith,
  count-picked d (if holds pending x then without x pending else pending) xs
      (λ e. ground (arith, u e, count-without e x pending)),
  count-without d x pending,
  u d,
  u x,
)

-- A picked module was pending, and stands in the layer.
picked-Occurs :
    (d : Name) (pending l : List Name)
    → IsDistinct pending
    → Occurs d (pick pending l).0
    → Occurs d l × Occurs d pending
picked-Occurs d pending l u o =
    (ground (arith, count-picked d pending l u), ground (arith, count-picked d pending l u))

-- What is pending behind a layer is not in it.
rest-Occurs :
    (d : Name) (pending l : List Name)
    → IsDistinct pending
    → Occurs d (pick pending l).1
    → (count d l ≡ 0) × Occurs d pending
rest-Occurs d pending l u o = (
  ground (arith, count-picked d pending l u, count-pick d pending l u),
  omega (arith, count-pick d pending l u),
)

-- In the middle of `stopLayers`: `r` are the layers to come, and `pending` what was started and is
-- in no layer so far; the others are `gone`.
record Middle (ns : Nodes) (started gone pending : List Name) (r : List (List Name)) : Type 0 where
  reversed : IsReversed ns r
  once : (d : Name) → count d (concat r) ≤ 1
  distinct : IsDistinct pending
  covered : (d : Name) → Occurs d started → 1 ≤ count d pending + count d gone
  planned : (d : Name) → Occurs d pending → Occurs d (concat r)

Middle-IsFree :
    (ns : Nodes) (started gone pending l : List Name) (r : List (List Name))
    → Middle ns started gone pending (l ∷ r)
    → All (IsFree ns started gone) (pick pending l).0
Middle-IsFree ns started gone pending l r m = All-of_Occurs _ (pick pending l).0 λ x o y n f dep s.
    let (in_l, in_pending) = picked-Occurs x pending l m.distinct o in
    elim (zero_or_pos (count y pending)) [
      | inl e ↦ omega (arith, e, m.covered y s)
      | inr e ↦
          let behind =
            All-Occurs (λ z. Occurs z (concat r)) n.deps x
              (IsReversed-DepsIn ns l r y m.reversed (m.planned y e) n f) dep in
          absurd (omega (arith, in_l, behind, m.once x, count-append x l (concat r)))
    ]

Middle-next :
    (ns : Nodes) (started gone pending l : List Name) (r : List (List Name))
    → Middle ns started gone pending (l ∷ r)
    → Middle ns started (gone ++ (pick pending l).0) (pick pending l).1 r
Middle-next ns started gone pending l r m = record {
  reversed = m.reversed.1;
  once = λ d. omega (arith, m.once d, count-append d l (concat r));
  distinct = λ d. omega (arith, m.distinct d, count-pick d pending l m.distinct);
  covered = λ d s. omega (
    arith,
    m.covered d s,
    count-pick d pending l m.distinct,
    count-append d gone (pick pending l).0,
  );
  planned = λ d o.
      let (a, b) = rest-Occurs d pending l m.distinct o in
      omega (arith, a, m.planned d b, count-append d l (concat r));
}

pick_layers-IsUnwound :
    (ns : Nodes) (started gone pending : List Name) (r : List (List Name))
    → Middle ns started gone pending r
    → IsUnwound ns started gone (pick_layers pending r).0
      × ((d : Name) → count d (pick_layers pending r).1 ≡ 0)
unfolding pick_layers
pick_layers-IsUnwound ns started gone pending [] m = (tt, λ d. omega (arith, none_left d))
  where
    none_left : (d : Name) → count d pending ≡ 0
    none_left d = elim (zero_or_pos (count d pending)) [
      | inl e ↦ e
      | inr e ↦ absurd (omega (arith, m.planned d e))
    ]
pick_layers-IsUnwound ns started gone pending (l ∷ r) m =
    let (u, c) =
      pick_layers-IsUnwound ns started (gone ++ (pick pending l).0) (pick pending l).1 r
        (Middle-next ns started gone pending l r m) in
    (
      IsUnwound-cons_layer ns started gone (pick pending l).0 _
          (Middle-IsFree ns started gone pending l r m) u,
      c,
    )

-- With nothing pending there are no leftovers.
leftovers-nil :
    (started pending : List Name)
    → ((d : Name) → count d pending ≡ 0)
    → leftovers started pending ≡ []
leftovers-nil started pending c = ap reverse_serial (go started)
  where
    go : (xs : List Name) → select (holds pending) xs ≡ []
    go [] = refl
    go (x ∷ xs) = ground (arith, c x, go xs)

-- With a plan, the order in which the modules were started does not matter.
pub planned-IsUnwound :
    (ns : Nodes) (started : List Name) (ls : List (List Name))
    → IsMap ns
    → plan ns ≡ layers_of ls
    → IsDistinct started
    → ((d : Name) → Occurs d started → Occurs d (keys ns))
    → IsUnwound ns started [] (stop_layers ns started)
unfolding stop_layers planned_stop_layers
planned-IsUnwound ns started ls is_map h u known =
    let (closed, perm, lay) = plan-IsLayered ns ls is_map h in
    let (v, c) = pick_layers-IsUnwound ns started [] started (reverse ls) (record {
      reversed = IsReversed-reverse_aux ns [] ls [] lay (λ d. refl) tt;
      once = λ d. omega (arith, count-concat-reverse_aux d ls [], count-perm d perm, is_map d);
      distinct = u;
      covered = λ d s. omega arith;
      planned =
          λ d o. omega (arith, count-concat-reverse_aux d ls [], count-perm d perm, known d o);
    }) in
    subst (λ p. IsUnwound ns started [] (planned_stop_layers started p)) (sym h)
      (subst (λ l. IsUnwound ns started [] ((pick_layers started (reverse ls)).0 ++ l))
        (sym (leftovers-nil started _ c)) (subst (IsUnwound ns started []) (sym (append-nil _)) v))
