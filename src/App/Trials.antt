-- ===== src/App/Trials.antt =====
-- An application of two modules that never fail, and the theorems on such at it.
use mathlib.Core.List.Perm
use appmod.Common.{
  map, ℕ, ◌+◌, Name, bytes, sym, subst, name_discrete, [], ◌∷◌, none, some, true, false, ◌≡◌, refl,
  arith, name_eqb, if◌then◌else◌,
}
use appmod.Base.Defs.{zero_value, set_app_context}
use appmod.Base.Environment.{Environment, given, detached, returned}
use appmod.Base.Lifecycle.{init}
use appmod.Manager.Plan.{plan}
use appmod.Base.Willing.{IsWilling}
use appmod.Manager.Defs.{Nodes, Manager, find_node, register, new_manager}
use appmod.Manager.Known.{IsClosed}
use appmod.Manager.Cycles.{IsRanked}
use appmod.Manager.Soundness.{no_option}
use appmod.Manager.Teardown.{At, stop}
use appmod.Manager.Startup.{start, can_start}
use appmod.Manager.Histories.{Reached, made, after, registers, starts}
use appmod.App.{Rest, base_modules}
use appmod.App.Ordering.{InitCall, noted_modules, AreInOrder, Reached-AreInOrder}
use appmod.App.Liveness.{calm_program, IsInjective, willing-start, start-stop}

abbrev calm : Environment
calm = record {
  World = ℕ;
  ctx_err = λ c w. none;
  call_hook = λ fn ctx v w. (record { effects = []; outcome = returned none }, w + 1);
  call_cleanup = λ fn ctx w. (record { effects = []; outcome = returned none }, w);
}

abbrev rest : Rest
rest = record {
  env = calm;
  app_ctx = 7;
  checks_health = λ h. false;
  health_check = λ h ctx w. (none, w);
  end_shutdown = λ w. w;
  await_shutdown = λ ctx w. w;
  teardown_ctx = λ ctx w. detached ctx;
  wait_result = λ e w. e;
  sh_exit_code = λ w. 0;
  arrange = λ w names. names;
  arrange-perm = λ w names. Perm.refl names;
}

willing : IsWilling calm
willing = record { open_ended = λ c w. refl; hook = λ fn ctx v w. refl }

abbrev db : Name
db = bytes "db"

abbrev api : Name
api = bytes "api"

abbrev app : Nodes
app = (api, record { handle = 2; deps = db ∷ [] }) ∷ (db, record { handle = 1; deps = [] }) ∷ []

abbrev fresh : At (base_modules rest)
unfolding zero_value
fresh = record { world = record { outer = 0; base = λ h. zero_value }; manager = new_manager 0 [] }

abbrev with_db : At (base_modules rest)
with_db = record fresh { manager = (register db (some 1) [] fresh.manager).1 }

abbrev with_both : At (base_modules rest)
with_both = record fresh { manager = (register api (some 2) (db ∷ []) with_db.manager).1 }

both-Reached : Reached (base_modules rest) (calm_program rest willing) with_both
unfolding fresh
both-Reached =
    after with_db with_both
      (after fresh with_db (made fresh.world 0 [] (λ h. refl) no_option) (registers db (some 1) []))
      (registers api (some 2) (db ∷ []))

registered : with_both.manager.nodes ≡ app
unfolding register new_manager find_node name_discrete fresh
registered = refl

idle : with_both.manager.started ≡ []
unfolding register new_manager find_node name_discrete fresh
idle = refl

abbrev rank : Name → ℕ
rank x = if name_eqb x db then 0 else 1

app-IsClosed : IsClosed app app
app-IsClosed = ((ground arith, tt), (tt, tt))

app-IsRanked : IsRanked rank app
unfolding find_node
app-IsRanked d n x f o = ground arith

app-IsInjective : IsInjective rest willing app
unfolding find_node
app-IsInjective x y n m f g e = ground arith

closed : IsClosed with_both.manager.nodes with_both.manager.nodes
closed = subst (λ ns. IsClosed ns ns) (sym registered) app-IsClosed

ranked : IsRanked rank with_both.manager.nodes
ranked = subst (IsRanked rank) (sym registered) app-IsRanked

injective : IsInjective rest willing with_both.manager.nodes
injective = subst (IsInjective rest willing) (sym registered) app-IsInjective

startable : can_start with_both.manager.state ≡ true
unfolding register new_manager find_node name_discrete fresh
startable = refl

willing-start_example : (start (base_modules rest) (given 0) with_both).0 ≡ none
willing-start_example =
    willing-start rest willing (given 0) with_both rank both-Reached startable idle closed ranked
      injective

start-stop_example :
    (start (base_modules rest) (given 1) (stop (base_modules rest) (given 0) with_both).1).0 ≡ none
start-stop_example =
    start-stop rest willing (given 1) (given 0) with_both rank both-Reached closed ranked injective

run_all : Unit {0}
unfolding plan find_node name_discrete start new_manager register init fresh set_app_context
run_all = tt

abbrev noted_at : Manager → At (noted_modules rest)
noted_at m = record { world = record { app = fresh.world; calls = [] }; manager = m }

abbrev noted_up : At (noted_modules rest)
noted_up = (start (noted_modules rest) (given 0) (noted_at with_both.manager)).1

-- `db` was started, and `api` then.
calls-order : map (λ (c : InitCall). c.handle) noted_up.world.calls ≡ 2 ∷ 1 ∷ []
unfolding run_all
calls-order = refl

Reached-AreInOrder_example : AreInOrder rest noted_up.manager.nodes noted_up.world.calls
unfolding new_manager fresh
Reached-AreInOrder_example = Reached-AreInOrder rest noted_up (
    after (noted_at with_both.manager) noted_up
      (after (noted_at with_db.manager) (noted_at with_both.manager)
        (after (noted_at fresh.manager) (noted_at with_db.manager)
          (made (noted_at fresh.manager).world 0 [] refl no_option) (registers db (some 1) []))
        (registers api (some 2) (db ∷ [])))
      (starts (given 0)))
