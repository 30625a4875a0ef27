-- ===== src/Manager/Registering.antt =====
-- `Register` and `Modules`.
use appmod.Common.{
  ℕ, Name, name_discrete, List, [], ◌∷◌, Option, none, some, ite, ◌≡◌, refl, Perm, ◌≢◌, leb_name,
}
use appmod.Common.Sort.{sort_names, sort_names-IsSorted, sort_by-perm, IsSorted}
use appmod.Errors.{Err, sentinel, wrapped, module_named, empty_name, nil_module, duplicate_module}
use appmod.Manager.Defs.{Node, Manager, find_node, keys, register, register_node, modules}

-- How `Register` ends.
pub data Registered (name : Name) (module' : Option ℕ) (deps : List Name) (m : Manager)
    (res : Option Err) (m' : Manager) : Type 0 where
  unnamed :
      name ≡ [] → res ≡ some (sentinel empty_name) → m' ≡ m → Registered name module' deps m res m'
  no_module :
      name ≢ []
      → module' ≡ none
      → res ≡ some (sentinel nil_module)
      → m' ≡ m
      → Registered name module' deps m res m'
  taken :
      (h : ℕ) (n : Node)
      → name ≢ []
      → module' ≡ some h
      → find_node name m.nodes ≡ some n
      → res ≡ some (wrapped (module_named name) (sentinel duplicate_module))
      → m' ≡ m
      → Registered name module' deps m res m'
  added :
      (h : ℕ)
      → name ≢ []
      → module' ≡ some h
      → find_node name m.nodes ≡ none
      → res ≡ none
      → m' ≡ record m { nodes = m'.nodes }
      → ((u : Name)
          → find_node u m'.nodes
            ≡ ite
                (name_discrete u name)
                (some (record { handle = h; deps = deps }))
                (find_node u m.nodes))
      → Registered name module' deps m res m'

-- `Register` refuses an empty name, a nil module and a name that is taken, in this order, with the
-- error for it, and changes nothing. Otherwise the name stands for the module with its
-- dependencies, and nothing else of the manager changes.
pub register-Registered :
    (name : Name) (module' : Option ℕ) (deps : List Name) (m : Manager)
    → let w = register name module' deps m in Registered name module' deps m w.0 w.1
unfolding register register_node find_node
register-Registered [] module' deps m = unnamed refl refl refl
register-Registered (c ∷ cs) none deps m = no_module (λ e. cc) refl refl refl
register-Registered (c ∷ cs) (some h) deps m = go (find_node (c ∷ cs) m.nodes) refl
  where
    go :
        (o : Option Node)
        → find_node (c ∷ cs) m.nodes ≡ o
        → let w = register_node (c ∷ cs) h deps o m in Registered (c ∷ cs) (some h) deps m w.0 w.1
    go (some n) f = taken h n (λ e. cc) refl f refl refl
    go none f = added h (λ e. cc) refl f refl refl (λ u. refl)

-- `Modules` returns the registered names, sorted.
pub modules_lem : (m : Manager) → IsSorted leb_name (modules m) × Perm (modules m) (keys m.nodes)
unfolding modules sort_names
modules_lem m = (sort_names-IsSorted (keys m.nodes), sort_by-perm leb_name (keys m.nodes))
