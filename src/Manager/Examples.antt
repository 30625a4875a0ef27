-- ===== src/Manager/Examples.antt =====
-- Small applications, what the code does on them, and the theorems at these inputs.
use appmod.Common.{
  ℕ, Name, bytes, name_discrete, List, [], ◌∷◌, none, ◌≡◌, refl, arith, Perm, ite, length, ◌≤◌,
}
use appmod.Errors.{sentinel, dependency_cycle}
use appmod.Manager.Defs.{Node, Nodes, keys, find_node}
use appmod.Manager.Plan.{plan, layers_of, refused, validate_deps}
use appmod.Manager.Counting.{IsMap}
use appmod.Manager.Known.{IsClosed}
use appmod.Manager.Rounds.{plan-rounds, spec_plan}
use appmod.Manager.Layers.{concat, IsLayered, plan-IsLayered}
use appmod.Manager.Fewest.{IsSchedule, plan-fewest}
use appmod.Manager.Order.{IsSameMap, plan-same}
use appmod.Manager.Cycles.{IsCyclic, left_over, plan-IsCyclic, IsRanked, plan_of_rank}

abbrev pub node : ℕ → List Name → Node
node handle deps = record { handle = handle; deps = deps }

abbrev pub db : Name
db = bytes "db"

abbrev pub cache : Name
cache = bytes "cache"

abbrev pub api : Name
api = bytes "api"

-- `api` depends on both others, and `cache` on `db`, twice.
abbrev pub app : Nodes
app = (api, node 3 (cache ∷ db ∷ [])) ∷ (db, node 1 []) ∷ (cache, node 2 (db ∷ db ∷ [])) ∷ []

abbrev pub app_layers : List (List Name)
app_layers = (db ∷ []) ∷ (cache ∷ []) ∷ (api ∷ []) ∷ []

-- `cache` and `api` depend on one another.
abbrev cyclic : Nodes
cyclic = (api, node 3 (cache ∷ [])) ∷ (db, node 1 []) ∷ (cache, node 2 (api ∷ db ∷ [])) ∷ []

abbrev pub dangling : Nodes
dangling = (api, node 3 (cache ∷ [])) ∷ []

unfoldable pub program : Unit {0}
unfolding plan find_node name_discrete
program = tt

pub plan-app : plan app ≡ layers_of app_layers
unfolding program
plan-app = refl

plan-cyclic : plan cyclic ≡ refused (sentinel dependency_cycle)
unfolding program
plan-cyclic = refl

pub app-IsMap : IsMap app
app-IsMap d = ground arith

cyclic-IsMap : IsMap cyclic
cyclic-IsMap d = ground arith

plan-IsLayered_example :
    IsClosed app app × Perm (concat app_layers) (keys app) × IsLayered app [] app_layers
plan-IsLayered_example = plan-IsLayered app app_layers app-IsMap plan-app

plan-IsCyclic_example : IsClosed cyclic cyclic × IsCyclic cyclic (left_over cyclic)
plan-IsCyclic_example = plan-IsCyclic cyclic cyclic-IsMap plan-cyclic

plan-rounds_example : plan app ≡ spec_plan app (validate_deps app)
plan-rounds_example = plan-rounds app app-IsMap

app_rank : Name → ℕ
app_rank d = ite (name_discrete d db) 0 (ite (name_discrete d cache) 1 2)

app-IsRanked : IsRanked app_rank app
unfolding app_rank find_node name_discrete
app-IsRanked d n x e o = ground arith

app-IsClosed : IsClosed app app
app-IsClosed = (plan-IsLayered app app_layers app-IsMap plan-app).0

plan_of_rank_example : (ls : List (List Name)) × (plan app ≡ layers_of ls)
plan_of_rank_example = plan_of_rank app_rank app app-IsMap app-IsRanked app-IsClosed

-- The modules of `app` in another order.
abbrev app_again : Nodes
app_again = (cache, node 2 (db ∷ db ∷ [])) ∷ (api, node 3 (cache ∷ db ∷ [])) ∷ (db, node 1 []) ∷ []

app-IsSameMap : IsSameMap app app_again
unfolding find_node name_discrete
app-IsSameMap = record { is_map = app-IsMap; is_map' = λ d. ground arith; same = λ d. ground arith }

validate-app : validate_deps app ≡ none
unfolding program
validate-app = refl

plan-same_example : plan app ≡ plan app_again
plan-same_example = plan-same app app_again app-IsSameMap validate-app

-- One module after the other.
abbrev serial : List (List Name)
serial = (db ∷ []) ∷ (cache ∷ []) ∷ (api ∷ []) ∷ []

serial-IsSchedule : IsSchedule app [] serial
serial-IsSchedule =
    let (a, s1, r) = (plan-IsLayered app app_layers app-IsMap plan-app).2 in
    let (b, s2, t) = r in
    let (c, s3, u) = t in
    (
      (ground arith, tt),
      a,
      ((ground arith, tt), b, ((ground arith, tt), c, (λ d o. omega (arith, o)))),
    )

plan-fewest_example : length app_layers ≤ length serial
plan-fewest_example = plan-fewest app app-IsMap app_layers serial plan-app serial-IsSchedule
