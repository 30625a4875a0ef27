-- ===== src/Programs/Site/Graph.antt =====
-- examples/manager/main.go: the graph of the modules, and which of them are started.
use appmod.Common.{
  ℕ, ◌==◌, if◌then◌else◌, ℤ, Name, name_discrete, true, false, some, [], ◌∷◌, ◌≡◌, refl, sym, ap,
  ◌∙◌, ◌⊎◌, inl, inr,
}
use mathlib.Core.Option.{some-injective}
use appmod.Manager.Defs.{Node, Nodes, Manager, created, find_node}
use appmod.Programs.Started.{found_here}
use appmod.Programs.Site.Parts.{
  main_manager, config_name, db_name, worker_name, cache_name, api_name,
}

abbrev pub config_node : Node
config_node = record { handle = 0; deps = [] }

abbrev pub db_node : Node
db_node = record { handle = 1; deps = config_name ∷ [] }

abbrev pub worker_node : Node
worker_node = record { handle = 2; deps = config_name ∷ [] }

abbrev pub cache_node : Node
cache_node = record { handle = 3; deps = config_name ∷ db_name ∷ [] }

abbrev pub api_node : Node
api_node = record { handle = 4; deps = db_name ∷ cache_name ∷ [] }

-- The modules as `main` registers them, one by one.
abbrev pub one_node : Nodes
one_node = (config_name, config_node) ∷ []

abbrev pub two_nodes : Nodes
two_nodes = (db_name, db_node) ∷ one_node

abbrev pub three_nodes : Nodes
three_nodes = (worker_name, worker_node) ∷ two_nodes

abbrev pub four_nodes : Nodes
four_nodes = (cache_name, cache_node) ∷ three_nodes

abbrev pub site_nodes : Nodes
site_nodes = (api_name, api_node) ∷ four_nodes

-- The manager that `main` runs.
abbrev pub fresh_manager : (logger : ℕ) (seconds : ℤ) → Manager
fresh_manager logger seconds = record {
  nodes = site_nodes;
  started = [];
  state = created;
  logger = some logger;
  shutdown_timeout = seconds;
  signals = [];
  force = true;
  ran = false;
}

pub main_manager-some :
    (logger : ℕ) (seconds : ℤ) → main_manager logger seconds ≡ some (fresh_manager logger seconds)
unfolding main_manager name_discrete
main_manager-some logger seconds = refl

-- Which module a name stands for.
pub data IsPart (x : Name) (n : Node) : Type 0 where
  is_config : x ≡ config_name → n ≡ config_node → IsPart x n
  is_db : x ≡ db_name → n ≡ db_node → IsPart x n
  is_worker : x ≡ worker_name → n ≡ worker_node → IsPart x n
  is_cache : x ≡ cache_name → n ≡ cache_node → IsPart x n
  is_api : x ≡ api_name → n ≡ api_node → IsPart x n

pub find_node-IsPart : (x : Name) (n : Node) → find_node x site_nodes ≡ some n → IsPart x n
unfolding find_node
find_node-IsPart x n f = elim (found_here x api_name n api_node four_nodes f) [
  | inl (e, q) ↦ is_api e q
  | inr f1 ↦ elim (found_here x cache_name n cache_node three_nodes f1) [
    | inl (e, q) ↦ is_cache e q
    | inr f2 ↦ elim (found_here x worker_name n worker_node two_nodes f2) [
      | inl (e, q) ↦ is_worker e q
      | inr f3 ↦ elim (found_here x db_name n db_node one_node f3) [
        | inl (e, q) ↦ is_db e q
        | inr f4 ↦ elim (found_here x config_name n config_node [] f4) [
          | inl (e, q) ↦ is_config e q
          | inr f5 ↦ cc
        ]
      ]
    ]
  ]
]

-- The name of the module with a pointer.
abbrev pub name_at : ℕ → Name
name_at h =
    if h == 0
    then config_name
    else if h == 1
    then db_name
    else if h == 2
    then worker_name
    else if h == 3
    then cache_name
    else api_name

name_at-handle : (x : Name) (n : Node) → find_node x site_nodes ≡ some n → name_at n.handle ≡ x
name_at-handle x n f = elim (find_node-IsPart x n f) [
  | is_config e q ↦ ap (λ (m : Node). name_at m.handle) q ∙ sym e
  | is_db e q ↦ ap (λ (m : Node). name_at m.handle) q ∙ sym e
  | is_worker e q ↦ ap (λ (m : Node). name_at m.handle) q ∙ sym e
  | is_cache e q ↦ ap (λ (m : Node). name_at m.handle) q ∙ sym e
  | is_api e q ↦ ap (λ (m : Node). name_at m.handle) q ∙ sym e
]

-- Two modules are the same, or have different names and pointers.
pub apart :
    (x y : Name) (n m : Node)
    → find_node x site_nodes ≡ some n
    → find_node y site_nodes ≡ some m
    → ((y ≡ x) × (m ≡ n)) ⊎ (¬ (y ≡ x) × ¬ (m.handle ≡ n.handle))
apart x y n m f g = elim (name_discrete y x) [
  | yes e ↦ inl (e, some-injective _ _ (sym g ∙ ap (λ z. find_node z site_nodes) e ∙ f))
  | no e ↦ inr (e, λ q. e (sym (name_at-handle y m g) ∙ ap name_at q ∙ name_at-handle x n f))
]
