-- ===== src/App/Together.antt =====
-- `startLayer` of manager.go with the steps of `Init` of base.go: the goroutines of a layer, in any
-- interleaving of their steps.
use appmod.Common.{ℕ, zero, suc, Name, name_discrete, ite, List, [], ◌∷◌, ◌++◌, Option, none, some}
use appmod.Errors.{Err, wrapped, module_failed_to_start}
use appmod.Base.Environment.{Ctx}
use appmod.Base.Lifecycle.{Run}
use appmod.Base.Steps.{Task, entering, returned, step}
use appmod.App.{Rest, World, enter_module, put_base}

-- A goroutine is in `Init`, or it has told what `Init` returned.
pub data Stage : Type 0 where
  at : Task → Stage
  ended : Stage

-- A goroutine that takes some turns.
abbrev pub repeat : ℕ → Name → List Name
repeat zero x = []
repeat (suc n) x = x ∷ repeat n x

module _ (rest : Rest) (ctx : Ctx) (handle_of : Name → ℕ) where
  open rest use {env}

  -- What the goroutines share, and where each of them is.
  pub record Layer : Type 0 where
    pub world : World rest
    pub started : List Name
    pub errs : List Err
    pub stage : Name → Stage

  abbrev pub set_stage : Name → Stage → (Name → Stage) → Name → Stage
  set_stage x t f y = ite (name_discrete y x) t (f y)

  -- A step of the `Init` of the module `x`.
  abbrev pub advance : Name → Task × Run (env.World) → Layer → Layer
  advance x (t, r) s = record s {
    world = record { outer = r.world; base = put_base rest (handle_of x) r.base s.world.base };
    stage = set_stage x (at t) s.stage;
  }

  -- What a goroutine tells of `Init` under the locks of the manager and of the errors.
  abbrev pub tell : Name → Option Err → Layer → Layer
  tell x none s = record s { started = s.started ++ x ∷ []; stage = set_stage x ended s.stage }
  tell x (some e) s = record s {
    errs = s.errs ++ wrapped (module_failed_to_start x) e ∷ [];
    stage = set_stage x ended s.stage;
  }

  -- The goroutine of `x` takes a turn.
  abbrev pub turn_at : Name → Stage → Layer → Layer
  turn_at x ended s = s
  turn_at x (at (returned res)) s = tell x res s
  turn_at x (at t) s = advance x (step env ctx t (enter_module rest (handle_of x) s.world)) s

  unfoldable pub turn : Name → Layer → Layer
  unfolding step
  turn x s = turn_at x (s.stage x) s

  unfoldable pub play : List Name → Layer → Layer
  unfolding turn
  play [] s = s
  play (x ∷ xs) s = play xs (turn x s)

  -- The goroutines of a layer at their start.
  abbrev pub spawned : World rest → List Name → Layer
  spawned w started = record { world = w; started = started; errs = []; stage = λ x. at entering }
