-- ===== src/Manager/StopLayers.antt =====
-- The layers of a teardown hold exactly what was started.
use appmod.Common.{
  ◌+◌, ◌≤◌, Name, name_eqb, List, [], ◌∷◌, ◌++◌, not, count, select, reverse, map, ◌≡◌, refl, sym,
  ap, ◌∙◌, arith, Perm, count-append, count-select, count-perm, perm_of_count, if◌then◌else◌,
  append_assoc,
}
use mathlib.Core.List.{reverse_perm}
use appmod.Manager.Defs.{Nodes}
use appmod.Manager.Plan.{plan, Planned, layers_of, refused}
use appmod.Manager.Layers.{concat}
use appmod.Manager.Teardown.{
  reverse_serial, without, holds, pick, cons_layer, pick_layers, leftovers, planned_stop_layers,
  stop_layers,
}

pub count-without :
    (d x : Name) (xs : List Name)
    → count d (without x xs) ≡ (if name_eqb d x then 0 else count d xs)
count-without d x xs = ground (arith, count-select d (λ y. not (name_eqb y x)) xs)

-- No name stands twice.
abbrev pub IsDistinct : List Name → Type 0
IsDistinct xs = (d : Name) → count d xs ≤ 1

concat-serial : (xs : List Name) → concat (map (λ x. x ∷ []) xs) ≡ xs
concat-serial [] = refl
concat-serial (x ∷ xs) = ap (◌∷◌ x) (concat-serial xs)

count-reverse_serial :
    (d : Name) (xs : List Name) → count d (concat (reverse_serial xs)) ≡ count d xs
count-reverse_serial d xs =
    ap (count d) (concat-serial (reverse xs)) ∙ count-perm d (reverse_perm xs)

pub concat-cons_layer :
    (l : List Name) (ls : List (List Name)) → concat (cons_layer l ls) ≡ l ++ concat ls
concat-cons_layer [] ls = refl
concat-cons_layer (x ∷ xs) ls = refl

pub count-pick :
    (d : Name) (pending l : List Name)
    → IsDistinct pending
    → count d (pick pending l).0 + count d (pick pending l).1 ≡ count d pending
unfolding pick
count-pick d pending [] u = omega arith
count-pick d pending (x ∷ xs) u = ground (
  arith,
  count-pick d (if holds pending x then without x pending else pending) xs
      (λ e. ground (arith, u e, count-without e x pending)),
  count-without d x pending,
  u d,
  u x,
)

pub count-pick_layers :
    (d : Name) (pending : List Name) (ls : List (List Name))
    → IsDistinct pending
    → count d (concat (pick_layers pending ls).0) + count d (pick_layers pending ls).1
      ≡ count d pending
unfolding pick_layers
count-pick_layers d pending [] u = omega arith
count-pick_layers d pending (l ∷ ls) u = omega (
  arith,
  count-pick d pending l u,
  count-pick_layers d (pick pending l).1 ls (λ e. omega (arith, u e, count-pick e pending l u)),
  ap (count d) (concat-cons_layer (pick pending l).0 (pick_layers (pick pending l).1 ls).0),
  count-append d (pick pending l).0 (concat (pick_layers (pick pending l).1 ls).0),
)

pub concat-append : (ls ms : List (List Name)) → concat (ls ++ ms) ≡ concat ls ++ concat ms
concat-append [] ms = refl
concat-append (l ∷ ls) ms =
    ap (◌++◌ l) (concat-append ls ms) ∙ sym (append_assoc l (concat ls) (concat ms))

count-leftovers :
    (d : Name) (started pending : List Name)
    → count d (concat (leftovers started pending))
      ≡ (if holds pending d then count d started else 0)
count-leftovers d started pending =
    count-reverse_serial d (select (holds pending) started) ∙ count-select d (holds pending) started

-- If no module was started twice, the layers of a teardown hold every started module once and no
-- other, whatever the graph has become since.
pub stop_layers-perm :
    (ns : Nodes) (started : List Name)
    → IsDistinct started
    → Perm (concat (stop_layers ns started)) started
unfolding stop_layers planned_stop_layers
stop_layers-perm ns started u = go (plan ns)
  where
    go : (p : Planned) → Perm (concat (planned_stop_layers started p)) started
    go (refused e) = perm_of_count _ started (λ d. count-reverse_serial d started)
    go (layers_of ls) =
        let (layers, pending) = pick_layers started (reverse ls) in
        perm_of_count _ started λ d. ground (
          arith,
          ap (count d) (concat-append layers (leftovers started pending)),
          count-append d (concat layers) (concat (leftovers started pending)),
          count-leftovers d started pending,
          count-pick_layers d started (reverse ls) u,
          u d,
        )
