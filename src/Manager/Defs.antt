-- ===== src/Manager/Defs.antt =====
-- The manager's state and what changes it without running a module.
use appmod.Common.{
  ℕ, Name, name_discrete, List, [], ◌∷◌, Option, none, some, Bool, true, false, ite, map, ℤ, pos,
}
use appmod.Common.Sort.{sort_names}
use appmod.Errors.{
  Err, sentinel, wrapped, module_named, empty_name, nil_module, duplicate_module, already_run,
}

-- A module is a pointer; what its methods do is a parameter of the operations that call them.
pub record Node : Type 0 where
  pub handle : ℕ
  pub deps : List Name

-- A Go map in the order in which a `range` visits it, which is any order.
abbrev pub Nodes : Type 0
Nodes = List (Name × Node)

pub data ManagerState : Type 0 where
  created starting running stopped : ManagerState

pub record Manager : Type 0 where
  pub nodes : Nodes
  pub started : List Name
  pub state : ManagerState
  pub logger : Option ℕ
  pub shutdown_timeout : ℤ
  pub signals : List ℕ
  pub force : Bool
  pub ran : Bool

abbrev pub keys : Nodes → List Name
keys = map (λ e. e.0)

-- `n, ok := nodes[name]`.
unfoldable pub find_node : Name → Nodes → Option Node
find_node k [] = none
find_node k ((j, n) ∷ ns) = ite (name_discrete k j) (some n) (find_node k ns)

-- `ManagerOption`s, and `NewManager`, whose logger is never nil.
abbrev pub ManagerOption : Type 0
ManagerOption = Manager → Manager

unfoldable pub with_logger : Option ℕ → ManagerOption
with_logger l m = record m { logger = l }

unfoldable pub with_shutdown_timeout : ℤ → ManagerOption
with_shutdown_timeout d m = record m { shutdown_timeout = d }

unfoldable pub with_signals : List ℕ → ManagerOption
with_signals s m = record m { signals = s }

unfoldable pub with_force_on_second_signal : Bool → ManagerOption
with_force_on_second_signal v m = record m { force = v }

unfoldable pub apply_options : List ManagerOption → Manager → Manager
apply_options [] m = m
apply_options (o ∷ os) m = apply_options os (o m)

abbrev pub or_discard : ℕ → Option ℕ → Option ℕ
or_discard d none = some d
or_discard d (some l) = some l

unfoldable pub new_manager : (discard_logger : ℕ) → List ManagerOption → Manager
unfolding apply_options
new_manager discard_logger opts =
    let m = apply_options opts (record {
      nodes = [];
      started = [];
      state = created;
      logger = none;
      shutdown_timeout = pos 0;
      signals = [];
      force = true;
      ran = false;
    }) in
    record m { logger = or_discard discard_logger m.logger }

unfoldable pub register_node : Name → ℕ → List Name → Option Node → Manager → Option Err × Manager
register_node name module' deps (some n) m =
    (some (wrapped (module_named name) (sentinel duplicate_module)), m)
register_node name module' deps none m =
    (none, record m { nodes = (name, record { handle = module'; deps = deps }) ∷ m.nodes })

-- `Register`. A nil module is none.
unfoldable pub register : Name → Option ℕ → List Name → Manager → Option Err × Manager
unfolding find_node register_node
register [] module' deps m = (some (sentinel empty_name), m)
register (c ∷ cs) none deps m = (some (sentinel nil_module), m)
register (c ∷ cs) (some h) deps m = register_node (c ∷ cs) h deps (find_node (c ∷ cs) m.nodes) m

unfoldable pub set_state : ManagerState → Manager → Manager
set_state s m = record m { state = s }

-- `Modules`.
unfoldable pub modules : Manager → List Name
unfolding sort_names
modules m = sort_names (keys m.nodes)

abbrev pub claim_run : Bool → Manager → Option Err × Manager
claim_run true m = (some (sentinel already_run), m)
claim_run false m = (none, record m { ran = true })

unfoldable pub begin_run : Manager → Option Err × Manager
begin_run m = claim_run m.ran m
