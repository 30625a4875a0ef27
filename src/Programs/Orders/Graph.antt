-- ===== src/Programs/Orders/Graph.antt =====
-- adapters/hubmod/examples/orders/main.go: the graph of the modules.
use appmod.Common.{
  Name, name_discrete, true, false, some, List, [], ◌∷◌, ◌≡◌, refl, pos, inl, inr, arith,
}
use appmod.Manager.Defs.{Node, Nodes, Manager, created, find_node}
use appmod.Manager.Plan.{plan, layers_of}
use appmod.Manager.Counting.{IsMap}
use appmod.Programs.Started.{found_here}
use appmod.Programs.Orders.Parts.{main_manager, bus_name, inventory_name, mailer_name, shop_name}

abbrev pub bus_node : Node
bus_node = record { handle = 0; deps = [] }

abbrev pub inventory_node : Node
inventory_node = record { handle = 1; deps = bus_name ∷ [] }

abbrev pub mailer_node : Node
mailer_node = record { handle = 2; deps = bus_name ∷ [] }

abbrev pub shop_node : Node
shop_node = record { handle = 3; deps = bus_name ∷ inventory_name ∷ mailer_name ∷ [] }

-- The modules as `main` registers them, one by one.
abbrev pub one_node : Nodes
one_node = (bus_name, bus_node) ∷ []

abbrev pub two_nodes : Nodes
two_nodes = (inventory_name, inventory_node) ∷ one_node

abbrev pub three_nodes : Nodes
three_nodes = (mailer_name, mailer_node) ∷ two_nodes

abbrev pub orders_nodes : Nodes
orders_nodes = (shop_name, shop_node) ∷ three_nodes

-- The manager that `main` starts.
abbrev pub fresh_manager : Manager
fresh_manager = record {
  nodes = orders_nodes;
  started = [];
  state = created;
  logger = some 0;
  shutdown_timeout = pos 0;
  signals = [];
  force = true;
  ran = false;
}

pub main_manager-some : main_manager ≡ some fresh_manager
unfolding main_manager name_discrete
main_manager-some = refl

pub orders-IsMap : IsMap orders_nodes
orders-IsMap d = ground arith

abbrev pub orders_layers : List (List Name)
orders_layers = (bus_name ∷ []) ∷ (inventory_name ∷ mailer_name ∷ []) ∷ (shop_name ∷ []) ∷ []

pub plan-orders : plan orders_nodes ≡ layers_of orders_layers
unfolding plan find_node name_discrete
plan-orders = refl

-- Which module a name stands for.
pub data IsPart (x : Name) (n : Node) : Type 0 where
  is_bus : x ≡ bus_name → n ≡ bus_node → IsPart x n
  is_inventory : x ≡ inventory_name → n ≡ inventory_node → IsPart x n
  is_mailer : x ≡ mailer_name → n ≡ mailer_node → IsPart x n
  is_shop : x ≡ shop_name → n ≡ shop_node → IsPart x n

pub find_node-IsPart : (x : Name) (n : Node) → find_node x orders_nodes ≡ some n → IsPart x n
unfolding find_node
find_node-IsPart x n f = elim (found_here x shop_name n shop_node three_nodes f) [
  | inl (e, q) ↦ is_shop e q
  | inr f1 ↦ elim (found_here x mailer_name n mailer_node two_nodes f1) [
    | inl (e, q) ↦ is_mailer e q
    | inr f2 ↦ elim (found_here x inventory_name n inventory_node one_node f2) [
      | inl (e, q) ↦ is_inventory e q
      | inr f3 ↦ elim (found_here x bus_name n bus_node [] f3) [
        | inl (e, q) ↦ is_bus e q
        | inr f4 ↦ cc
      ]
    ]
  ]
]
