-- ===== src/Manager/Backing.antt =====
-- Lists of started modules in which every module stands behind its dependencies.
use appmod.Common.{
  Name, List, [], ◌∷◌, ◌++◌, sym, arith, All, Occurs, count-append, append_assoc, append-nil, subst,
  All-map,
}
use appmod.Manager.Defs.{Nodes}
use appmod.Manager.Layers.{DepsIn}

-- All registered dependencies of each name are in `seen` or in front of it.
abbrev pub IsBacked : Nodes → List Name → List Name → Type 0
IsBacked ns seen [] = Unit
IsBacked ns seen (x ∷ xs) = DepsIn ns seen x × IsBacked ns (seen ++ x ∷ []) xs

pub DepsIn-mono :
    (ns : Nodes) (seen more : List Name) (x : Name)
    → ((d : Name) → Occurs d seen → Occurs d more)
    → DepsIn ns seen x
    → DepsIn ns more x
DepsIn-mono ns seen more x f h n e = All-map f n.deps (h n e)

All-IsBacked : (ns : Nodes) (seen ys : List Name) → All (DepsIn ns seen) ys → IsBacked ns seen ys
All-IsBacked ns seen [] h = tt
All-IsBacked ns seen (y ∷ ys) h = (
  h.0,
  All-IsBacked ns (seen ++ y ∷ []) ys (
      All-map
        (λ x.
          DepsIn-mono ns seen (seen ++ y ∷ []) x
            (λ d o. omega (arith, count-append d seen (y ∷ []))))
        ys h.1),
)

pub IsBacked-append :
    (ns : Nodes) (seen xs ys : List Name)
    → IsBacked ns seen xs
    → All (DepsIn ns (seen ++ xs)) ys
    → IsBacked ns seen (xs ++ ys)
IsBacked-append ns seen [] ys b h =
    All-IsBacked ns seen ys (subst (λ l. All (DepsIn ns l) ys) (append-nil seen) h)
IsBacked-append ns seen (x ∷ xs) ys b h = (
  b.0,
  IsBacked-append ns (seen ++ x ∷ []) xs ys b.1
      (subst (λ l. All (DepsIn ns l) ys) (sym (append_assoc seen (x ∷ []) xs)) h),
)
