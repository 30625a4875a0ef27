-- ===== src/Manager/Ready.antt =====
-- What can be started behind some modules, and the layers by their definition.
use appmod.Common.{
  ℕ, zero, suc, ◌+◌, ◌≤◌, ◌<◌, Name, List, [], ◌∷◌, ◌++◌, Bool, length, select, ◌==◌, if◌then◌else◌,
  count, count-append, count-select, ◌≡◌, ◌∙◌, arith, ◌&&◌, leb_name,
}
use appmod.Common.Sort.{sort_names, count-sort_names, sort_names-IsSorted, IsSorted}
use appmod.Manager.Defs.{Nodes, keys}
use appmod.Manager.Counting.{waits, waits-append, Fresh, IsMap}

-- Not placed, with every dependency placed.
abbrev pub is_ready : Nodes → List Name → Name → Bool
is_ready ns placed d = count d placed == 0 && waits ns placed d == 0

unfoldable pub next_layer : Nodes → List Name → List Name
unfolding sort_names
next_layer ns placed = sort_names (select (is_ready ns placed) (keys ns))

unfoldable pub rounds : ℕ → Nodes → List Name → List (List Name)
unfolding next_layer
rounds zero ns placed = []
rounds (suc fuel) ns placed = elim (next_layer ns placed) [
  | [] ↦ []
  | x ∷ xs ↦ (x ∷ xs) ∷ rounds fuel ns (placed ++ x ∷ xs)
]

abbrev pub total : List (List Name) → ℕ
total [] = 0
total (l ∷ ls) = length l + total ls

pub count-next_layer :
    (ns : Nodes) (placed : List Name) (d : Name)
    → count d (next_layer ns placed) ≡ (if is_ready ns placed d then count d (keys ns) else 0)
unfolding next_layer
count-next_layer ns placed d =
    count-sort_names d (select (is_ready ns placed) (keys ns))
    ∙ count-select d (is_ready ns placed) (keys ns)

pub next_layer-IsSorted :
    (ns : Nodes) (placed : List Name) → IsSorted leb_name (next_layer ns placed)
unfolding next_layer
next_layer-IsSorted ns placed = sort_names-IsSorted (select (is_ready ns placed) (keys ns))

-- Names that are placed were ready, and none is placed twice.
pub record Placed (ns : Nodes) (placed : List Name) : Type 0 where
  pub met : (d : Name) → 0 < count d placed → waits ns placed d ≡ 0
  pub once : (d : Name) → count d placed ≤ count d (keys ns)

pub Fresh-of_count :
    (placed layer : List Name)
    → ((d : Name) → count d placed + count d layer ≤ 1)
    → Fresh placed layer
Fresh-of_count placed [] h = tt
Fresh-of_count placed (x ∷ xs) h = (
  ground (arith, h x),
  Fresh-of_count (placed ++ x ∷ []) xs (λ d. ground (arith, h d, count-append d placed (x ∷ []))),
)

module _ (ns : Nodes) (is_map : IsMap ns) (placed : List Name) (inv : Placed ns placed) where
  pub next_layer-Fresh : Fresh placed (next_layer ns placed)
  next_layer-Fresh =
      Fresh-of_count placed (next_layer ns placed)
        λ d. ground (arith, count-next_layer ns placed d, inv.once d, is_map d)

  pub Placed-next_layer : Placed ns (placed ++ next_layer ns placed)
  Placed-next_layer = record {
    met = λ d h. ground (
      arith,
      waits-append ns placed (next_layer ns placed) d next_layer-Fresh,
      count-append d placed (next_layer ns placed),
      count-next_layer ns placed d,
      inv.met d,
    );
    once = λ d. ground (
      arith,
      count-append d placed (next_layer ns placed),
      count-next_layer ns placed d,
      inv.once d,
    );
  }
