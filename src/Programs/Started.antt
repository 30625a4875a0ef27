-- ===== src/Programs/Started.antt =====
-- What the programs share: which modules are started, by name.
use appmod.Common.{
  ltb, Name, name_discrete, name_eqb, Bool, true, false, some, List, [], ◌∷◌, ◌++◌, count,
  count-append, ◌≡◌, arith, Occurs, ◌⊎◌, inl, inr,
}
use mathlib.Core.Option.{some-injective}
use appmod.Manager.Defs.{Node, Nodes, find_node}
use appmod.Manager.Teardown.{without}
use appmod.Manager.StopLayers.{count-without}

pub found_here :
    (x j : Name) (m n : Node) (ns : Nodes)
    → find_node x ((j, n) ∷ ns) ≡ some m
    → ((x ≡ j) × (m ≡ n)) ⊎ (find_node x ns ≡ some m)
unfolding find_node
found_here x j m n ns f = elim (name_discrete x j) [
  | yes e ↦ inl (e, some-injective _ _ (ground arith))
  | no e ↦ inr (ground arith)
]

-- Whether a module is started.
abbrev pub is_up : Name → List Name → Bool
is_up x started = ltb 0 (count x started)

pub is_up-same : (x : Name) (started : List Name) → count x started ≡ 0 → is_up x started ≡ false
is_up-same x started c = ground (arith, c)

pub is_up-dep : (x : Name) (started : List Name) → Occurs x started → is_up x started ≡ true
is_up-dep x started o = ground (arith, o)

pub is_up_self : (x : Name) (started : List Name) → is_up x (started ++ x ∷ []) ≡ true
is_up_self x started = ground (arith, count-append x started (x ∷ []))

pub is_up-other :
    (x y : Name) (started : List Name) → ¬ (y ≡ x) → is_up y (started ++ x ∷ []) ≡ is_up y started
is_up-other x y started e = ground (arith, count-append y started (x ∷ []))

pub is_up-apart :
    (x y : Name) (started : List Name)
    → name_eqb y x ≡ false
    → is_up y (started ++ x ∷ []) ≡ is_up y started
is_up-apart x y started e = ground (arith, count-append y started (x ∷ []))

-- A module is stopped.
pub is_up-gone : (x : Name) (started : List Name) → is_up x (without x started) ≡ false
is_up-gone x started = ground (arith, count-without x x started)

pub is_up-left :
    (x y : Name) (started : List Name) → ¬ (y ≡ x) → is_up y (without x started) ≡ is_up y started
is_up-left x y started e = ground (arith, count-without y x started)

pub is_up-stays :
    (x y : Name) (started : List Name)
    → name_eqb y x ≡ false
    → is_up y (without x started) ≡ is_up y started
is_up-stays x y started e = ground (arith, count-without y x started)
