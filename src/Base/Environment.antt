-- ===== src/Base/Environment.antt =====
-- What a lifecycle operation meets outside the package: contexts, hooks and cleanups.
use appmod.Common.{ℕ, Name, Option, none, some, List, [], ◌∷◌, Bool}
use appmod.Phase.{Phase}
use appmod.Errors.{Err}
use appmod.Config.{Config}
use appmod.Base.Defs.{
  Base, Hook, State, add_cleanup, add_hook, remove_hook, set_config, set_logger, set_app_context,
}

-- A context that a caller gave, or `context.WithoutCancel` of one.
pub data Ctx : Type 0 where
  given : ℕ → Ctx
  detached : Ctx → Ctx

-- What a closure did to its own module, through the public methods, while it ran.
pub data Effect : Type 0 where
  adds_cleanup : Option ℕ → Effect
  sets_config : Option Config → Effect
  sets_logger : Option ℕ → Effect
  sets_app_context : Option ℕ → Effect
  adds_hook : Phase → Hook → Effect
  removes_hook : Phase → Name → Effect

pub data Outcome : Type 0 where
  returned : Option Err → Outcome
  panics : ℕ → Outcome

pub record Call : Type 0 where
  pub effects : List Effect
  pub outcome : Outcome

-- `hookView`: what a hook may read.
pub record View : Type 0 where
  pub config : Config
  pub name : Name
  pub state : State

-- The rest of the program. `ctx_err c w` is what `Err()` of the context `c` answers in `w`.
pub record Environment : Type 1 where
  pub World : Type 0
  pub ctx_err : ℕ → World → Option Err
  pub call_hook : ℕ → Ctx → View → World → Call × World
  pub call_cleanup : ℕ → Ctx → World → Call × World

-- A call that panics leaves the module as it was.
abbrev or_same : Base → Option Base → Base
or_same b none = b
or_same b (some b') = b'

abbrev first_or_same : Base → Option (Base × Bool) → Base
first_or_same b none = b
first_or_same b (some (b', removed)) = b'

unfoldable pub apply : Effect → Base → Base
unfolding add_cleanup set_config set_logger set_app_context
apply (adds_cleanup fn) b = add_cleanup fn b
apply (sets_config c) b = set_config c b
apply (sets_logger l) b = set_logger l b
apply (sets_app_context c) b = set_app_context c b
apply (adds_hook p h) b = or_same b (add_hook p h b)
apply (removes_hook p n) b = first_or_same b (remove_hook p n b)

unfoldable pub apply_all : List Effect → Base → Base
unfolding apply
apply_all [] b = b
apply_all (e ∷ es) b = apply_all es (apply e b)
