-- ===== src/Manager/Unwinding.antt =====
-- The order of a teardown: dependents go before what they depend on.
use mathlib.Core.List.{reverse_aux}
use appmod.Common.{
  map, name_discrete, ◌⊎◌, ◌+◌, ◌≤◌, Name, List, [], ◌∷◌, ◌++◌, some, count, ◌≡◌, refl, sym, arith,
  Occurs, count-append, subst, inl, inr,
}
use appmod.Common.Counts.{zero_or_pos, All-Occurs}
use appmod.Manager.Defs.{Nodes, find_node, keys}
use appmod.Manager.Plan.{plan, Planned, layers_of, refused}
use appmod.Manager.Counting.{IsMap}
use appmod.Manager.Layers.{DepsIn}
use appmod.Manager.Backing.{DepsIn-mono, IsBacked}
use appmod.Manager.Teardown.{planned_stop_layers, stop_layers, reverse_serial}
use appmod.Manager.StopLayers.{IsDistinct}
use appmod.Manager.PlannedUnwinding.{IsUnwound, planned-IsUnwound}

-- Every started module is gone or among these, and then these can go, one at a time.
abbrev CanGo : Nodes → List Name → List Name → Type 0
CanGo ns started todo =
    (gone : List Name)
    → ((d : Name) → Occurs d started → 1 ≤ count d gone + count d todo)
    → IsUnwound ns started gone (map (λ x. x ∷ []) todo)

-- A module behind its dependencies, in front of those that are to go after it: what is before it
-- holds its own dependencies, so that none of these depends on it.
CanGo-cons :
    (ns : Nodes) (started seen : List Name) (x : Name) (todo : List Name)
    → ((d : Name) → count d todo ≡ count d seen)
    → ((y : Name) → Occurs y seen → DepsIn ns seen y)
    → DepsIn ns seen x
    → count x seen ≡ 0
    → CanGo ns started todo
    → CanGo ns started (x ∷ todo)
CanGo-cons ns started seen x todo c closed back fresh k gone all = (
  (
    (λ y n f dep s. elim (zero_or_pos (count y gone)) [
      | inr o ↦ o
      | inl e ↦ elim (name_discrete y x) [
        | yes q ↦ absurd (
            omega (
              arith,
              fresh,
              All-Occurs (λ z. Occurs z seen) n.deps x
                  (back n (subst (λ z. find_node z ns ≡ some n) q f)) dep,
            ))
        | no q ↦ absurd (
            omega (
              arith,
              fresh,
              All-Occurs (λ z. Occurs z seen) n.deps x
                  (closed y (ground (arith, all y s, c y, e, q)) n f) dep,
            ))
      ]
    ]),
    tt,
  ),
  k (gone ++ x ∷ []) (λ d o. ground (arith, all d o, count-append d gone (x ∷ []))),
)

CanGo-reverse :
    (ns : Nodes) (started xs seen todo : List Name)
    → ((d : Name) → count d seen + count d xs ≤ 1)
    → ((d : Name) → count d todo ≡ count d seen)
    → ((y : Name) → Occurs y seen → DepsIn ns seen y)
    → IsBacked ns seen xs
    → CanGo ns started todo
    → CanGo ns started (reverse_aux xs todo)
CanGo-reverse ns started [] seen todo u c closed back k = k
CanGo-reverse ns started (x ∷ xs) seen todo u c closed back k =
    CanGo-reverse ns started xs (seen ++ x ∷ []) (x ∷ todo)
      (λ d. ground (arith, u d, count-append d seen (x ∷ [])))
      (λ d. ground (arith, c d, count-append d seen (x ∷ [])))
      (λ y o. elim (name_discrete y x) [
        | yes q ↦ subst (DepsIn ns (seen ++ x ∷ [])) (sym q) (more x back.0)
        | no q ↦ more y (closed y (ground (arith, o, count-append y seen (x ∷ []), q)))
      ])
      back.1 (CanGo-cons ns started seen x todo c closed back.0 (ground (arith, u x)) k)
  where
    more : (y : Name) → DepsIn ns seen y → DepsIn ns (seen ++ x ∷ []) y
    more y =
        DepsIn-mono ns seen (seen ++ x ∷ []) y (λ d o. omega (arith, count-append d seen (x ∷ [])))

count-reverse_aux :
    (d : Name) (xs acc : List Name) → count d (reverse_aux xs acc) ≡ count d xs + count d acc
count-reverse_aux d [] acc = omega arith
count-reverse_aux d (x ∷ xs) acc = ground (arith, count-reverse_aux d xs (x ∷ acc))

-- Without a plan, what was started goes in the reverse order.
reversed-IsUnwound :
    (ns : Nodes) (started : List Name)
    → IsDistinct started
    → IsBacked ns [] started
    → IsUnwound ns started [] (reverse_serial started)
reversed-IsUnwound ns started u back =
    CanGo-reverse ns started started [] [] (λ d. omega (arith, u d)) (λ d. refl)
      (λ y o. absurd (omega arith)) back (λ gone all. tt) []
      (λ d o. omega (arith, count-reverse_aux d started []))

-- If nothing is started twice and everything that is started is registered, then the layers of a
-- teardown are such that when the turn of a layer comes, every started module that depends on one
-- of its modules is in an earlier layer. This holds if the registered modules can be planned,
-- whatever the order of the started ones; and it holds if each of the started modules stands behind
-- its dependencies among them, as `Start` leaves them, also where the registered modules cannot be
-- planned any more.
pub stop_layers-IsUnwound :
    (ns : Nodes) (started : List Name)
    → IsMap ns
    → IsDistinct started
    → ((d : Name) → Occurs d started → Occurs d (keys ns))
    → ((ls : List (List Name)) × (plan ns ≡ layers_of ls)) ⊎ IsBacked ns [] started
    → IsUnwound ns started [] (stop_layers ns started)
unfolding stop_layers planned_stop_layers
stop_layers-IsUnwound ns started is_map u known (inl (ls, h)) =
    planned-IsUnwound ns started ls is_map h u known
stop_layers-IsUnwound ns started is_map u known (inr back) = go (plan ns) refl
  where
    go : (p : Planned) → plan ns ≡ p → IsUnwound ns started [] (stop_layers ns started)
    go (layers_of ls) h = planned-IsUnwound ns started ls is_map h u known
    go (refused e) h =
        subst (λ p. IsUnwound ns started [] (planned_stop_layers started p)) (sym h)
          (reversed-IsUnwound ns started u back)
