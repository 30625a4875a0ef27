-- ===== src/App/Examples.antt =====
-- An application of two modules, one of which refuses to be stopped, and the theorems at it.
use mathlib.Core.List.Perm
use appmod.Common.{
  ℕ, Name, name_discrete, bytes, [], ◌∷◌, none, some, true, false, ◌≡◌, ◌≢◌, refl, arith, ◌==◌,
  if◌then◌else◌, pos,
}
use appmod.Errors.{foreign, is_err?, already_initialized, is_err}
use appmod.Base.Defs.{Base, State, created, set_app_context, zero_value}
use appmod.Base.Environment.{Environment, given, detached, returned}
use appmod.Base.Lifecycle.{init, destroy}
use appmod.Manager.Defs.{Node, new_manager, register, stopped, find_node}
use appmod.Manager.Teardown.{At, stop}
use appmod.Manager.Startup.{start}
use appmod.Manager.Soundness.{IsSound, no_option}
use appmod.Manager.Histories.{Program, Reached, made, after, registers, starts, now, then_one}
use appmod.Manager.Plan.{plan}
use appmod.App.{Rest, World, base_modules}
use appmod.App.Running.{AllUp}
use appmod.App.History.{app_program, Reached-AllUp, start-AllRunning}
use appmod.App.Watching.{Watch, watch_program, IsDone, TearsDown, Later-IsDone}
use appmod.App.Orphans.{IsOrphan, start-IsOrphan}

abbrev db : Name
db = bytes "db"

abbrev db_node : Node
db_node = record { handle = 1; deps = [] }

-- The hook 9 fails.
abbrev silent : Environment
silent = record {
  World = ℕ;
  ctx_err = λ c w. none;
  call_hook = λ fn ctx v w.
      (record { effects = []; outcome = returned (if fn == 9 then some (foreign 9) else none) }, w);
  call_cleanup = λ fn ctx w. (record { effects = []; outcome = returned none }, w);
}

-- In the world 1, the shutdown sequence has ended.
abbrev rest : Rest
rest = record {
  env = silent;
  app_ctx = 7;
  checks_health = λ h. false;
  health_check = λ h ctx w. (none, w);
  end_shutdown = λ w. 1;
  await_shutdown = λ ctx w. w;
  teardown_ctx = λ ctx w. detached ctx;
  wait_result = λ e w. e;
  sh_exit_code = λ w. 0;
  arrange = λ w names. names;
  arrange-perm = λ w names. Perm.refl names;
}

-- A module whose BeforeDestroy phase fails.
abbrev stubborn : State → Base
stubborn s = record {
  config = none;
  logger = none;
  app_ctx = none;
  before_start_hooks = [];
  after_start_hooks = [];
  before_destroy_hooks = record { name = []; priority = pos 0; run = some 9 } ∷ [];
  after_destroy_hooks = [];
  cleanups = [];
  state = s;
}

abbrev store_at : State → World rest
store_at s = record { outer = 0; base = λ h. stubborn s }

abbrev fresh : At (base_modules rest)
fresh = record { world = store_at created; manager = new_manager 0 [] }

abbrev with_db : At (base_modules rest)
with_db = record fresh { manager = (register db (some 1) [] fresh.manager).1 }

with_db-Reached : Reached (base_modules rest) (app_program rest) with_db
with_db-Reached =
    after fresh with_db (made (store_at created) 0 [] tt no_option) (registers db (some 1) [])

abbrev started_db : At (base_modules rest)
started_db = (start (base_modules rest) (given 0) with_db).1

run_all : Unit {0}
unfolding plan find_node name_discrete start stop new_manager register init destroy set_app_context
    is_err
run_all = tt

Reached-AllUp_example :
    AllUp rest started_db.manager.nodes started_db.manager.started started_db.world
Reached-AllUp_example =
    Reached-AllUp rest started_db (after with_db started_db with_db-Reached (starts (given 0)))

start-with_db : (start (base_modules rest) (given 0) with_db).0 ≡ none
unfolding run_all
start-with_db = refl

found : find_node db with_db.manager.nodes ≡ some db_node
unfolding run_all
found = refl

start-AllRunning_example : ((started_db.world.base 1).state) ≡ State.running
start-AllRunning_example =
    start-AllRunning rest (given 0) with_db with_db-Reached start-with_db db db_node found

-- `db` is started, stopped in vain, and cannot be started again.
abbrev stopped_db : At (base_modules rest)
stopped_db = (stop (base_modules rest) (given 0) started_db).1

restart :
    ((stopped_db.world.base 1).state ≡ State.running)
    × (stopped_db.manager.started ≡ [])
    × (is_err? (start (base_modules rest) (given 0) stopped_db).0 already_initialized ≡ true)
unfolding run_all
restart = (refl, refl, refl)

abbrev left_behind : At (base_modules rest)
left_behind = record {
  world = store_at State.running;
  manager = record (new_manager 0 []) { nodes = (db, db_node) ∷ []; state = stopped };
}

left_behind-IsSound : IsSound left_behind.manager
unfolding new_manager
left_behind-IsSound = record {
  is_map = λ d. ground arith;
  well_formed = record { registered = λ d o. ground arith; distinct = λ d. ground arith };
  rested = λ e. cc;
  fresh = λ e. refl;
}

left_behind-IsOrphan :
    IsOrphan rest 1 left_behind.manager.nodes left_behind.manager.started left_behind.world
unfolding new_manager
left_behind-IsOrphan = record {
  all_up = record {
    distinct = λ d. ground arith;
    up = λ x o. absurd (ground arith);
    apart = λ x y n m o p. absurd (ground arith);
  };
  runs = refl;
  others = λ x n o. absurd (ground arith);
}

found_left : find_node db left_behind.manager.nodes ≡ some db_node
unfolding run_all
found_left = refl

start-IsOrphan_example :
    let r = start (base_modules rest) (given 0) left_behind in
    (r.0 ≢ none) × IsOrphan rest 1 r.1.manager.nodes r.1.manager.started r.1.world
start-IsOrphan_example =
    start-IsOrphan rest 1 (given 0) left_behind db db_node left_behind-IsSound left_behind-IsOrphan
      found_left refl

abbrev watch : Watch rest
watch = record {
  channel = λ c. c;
  sh_context = 4;
  closed = λ ch w. w == 1;
  ended = λ w. refl;
  hook = λ fn ctx v ch w e. e;
  cleanup = λ fn ctx ch w e. e;
  check = λ h ctx ch w e. e;
  await = λ ctx ch w e. e;
}

-- The module is started, stopped, and started again: it sees a shutdown.
abbrev willing : At (base_modules rest)
willing = record fresh {
  world = record { outer = 0; base = λ h. zero_value };
  manager = with_db.manager;
}

abbrev up : At (base_modules rest)
up = (start (base_modules rest) (given 0) willing).1

abbrev down : At (base_modules rest)
down = (stop (base_modules rest) (given 0) up).1

abbrev up_again : At (base_modules rest)
up_again = (start (base_modules rest) (given 0) down).1

start-down :
    ((start (base_modules rest) (given 0) down).0 ≡ none)
    × (up.world.outer ≡ 0)
    × ((up_again.world.base 1).state ≡ State.running)
unfolding run_all zero_value
start-down = (refl, refl, refl)

abbrev program : Program (base_modules rest)
program = watch_program rest watch

up-Reached : Reached (base_modules rest) program up
up-Reached =
    after willing up
      (after (record willing { manager = fresh.manager }) willing
        (made willing.world 0 [] tt no_option) (registers db (some 1) []))
      (starts (given 0))

Later-IsDone_example : IsDone rest watch up_again
Later-IsDone_example =
    Later-IsDone rest watch (given 0) up down up_again up-Reached TearsDown.stopped
      (then_one down up_again now (starts (given 0)))
