-- ===== src/Base/Defs.antt =====
-- base.go without its lifecycle: the fields of `BaseAppModule`, and the operations on them that
-- run no code of the application. Closures are numbers, which the environment interprets.
use appmod.Common.{
  ℕ, Name, name_eqb, Bool, false, not, List, [], ◌∷◌, ◌++◌, Option, none, some, ℤ, pos, length,
  select, ◌==◌, if◌then◌else◌,
}
use appmod.Phase.{Phase, before_start, after_start, before_destroy, after_destroy, unnamed, valid}
use appmod.Config.{Config, default_config}

-- state.go.
pub data State : Type 0 where
  created initializing running destroying destroyed failed : State

-- hook.go. `run` is none for a nil function.
pub record Hook : Type 0 where
  pub name : Name
  pub priority : ℤ
  pub run : Option ℕ

pub record Base : Type 0 where
  pub config : Option Config
  pub logger : Option ℕ
  pub app_ctx : Option ℕ
  pub before_start_hooks : List Hook
  pub after_start_hooks : List Hook
  pub before_destroy_hooks : List Hook
  pub after_destroy_hooks : List Hook
  pub cleanups : List ℕ
  pub state : State

-- The zero value of the struct.
unfoldable pub zero_value : Base
zero_value = record {
  config = none;
  logger = none;
  app_ctx = none;
  before_start_hooks = [];
  after_start_hooks = [];
  before_destroy_hooks = [];
  after_destroy_hooks = [];
  cleanups = [];
  state = created;
}

-- A nil cleanup is ignored.
unfoldable pub add_cleanup : Option ℕ → Base → Base
add_cleanup none b = b
add_cleanup (some fn) b = record b { cleanups = b.cleanups ++ fn ∷ [] }

unfoldable pub config_of : Base → Config
unfolding default_config
config_of b = elim b.config [ none ↦ default_config | some c ↦ c ]

unfoldable pub set_config : Option Config → Base → Base
set_config c b = record b { config = c }

unfoldable pub name_of : Base → Name
unfolding default_config
name_of b = elim b.config [ none ↦ default_config.name | some c ↦ c.name ]

unfoldable pub set_logger : Option ℕ → Base → Base
set_logger l b = record b { logger = l }

unfoldable pub set_app_context : Option ℕ → Base → Base
set_app_context c b = record b { app_ctx = c }

unfoldable pub set_state : State → Base → Base
set_state s b = record b { state = s }

-- `hooksFor` returns a pointer to a slice: here its content, and a write through it. Both are
-- none where the code panics.
unfoldable pub hooks_for : Phase → Base → Option (List Hook)
hooks_for before_start b = some b.before_start_hooks
hooks_for after_start b = some b.after_start_hooks
hooks_for before_destroy b = some b.before_destroy_hooks
hooks_for after_destroy b = some b.after_destroy_hooks
hooks_for (unnamed n) b = none

unfoldable pub put_hooks : Phase → List Hook → Base → Option Base
put_hooks before_start hs b = some (record b { before_start_hooks = hs })
put_hooks after_start hs b = some (record b { after_start_hooks = hs })
put_hooks before_destroy hs b = some (record b { before_destroy_hooks = hs })
put_hooks after_destroy hs b = some (record b { after_destroy_hooks = hs })
put_hooks (unnamed n) hs b = none

infixl 5 ◌>>=◌
abbrev pub ◌>>=◌ {ℓ κ} : {A : Type ℓ} {B : Type κ} → Option A → (A → Option B) → Option B
none >>= f = none
some a >>= f = f a

-- `mustValidPhase`: none is the panic.
unfoldable pub must_valid_phase : Phase → Option (Unit {0})
must_valid_phase p = if valid p then some tt else none

unfoldable pub add_hook : Phase → Hook → Base → Option Base
unfolding must_valid_phase hooks_for put_hooks
add_hook p h b = do _ ← must_valid_phase p; hs ← hooks_for p b; put_hooks p (hs ++ h ∷ []) b

-- The new module, and whether a hook was removed.
unfoldable pub remove_named : Phase → Name → Base → Option (Base × Bool)
unfolding hooks_for put_hooks
remove_named p name b = do
  hs ← hooks_for p b
  let kept = select (λ h. not (name_eqb h.name name)) hs
  b' ← put_hooks p kept b
  some (b', not (length kept == length hs))

unfoldable pub remove_hook : Phase → Name → Base → Option (Base × Bool)
unfolding must_valid_phase remove_named
remove_hook p name b = do
  _ ← must_valid_phase p
  if name_eqb name [] then some (b, false) else remove_named p name b

-- `BeforeStart`, `AfterStart`, `BeforeDestroy` and `AfterDestroy` add a hook without a name.
abbrev pub anonymous : Option ℕ → Hook
anonymous fn = record { name = []; priority = pos 0; run = fn }

unfoldable pub add_anonymous : Phase → Option ℕ → Base → Option Base
unfolding add_hook
add_anonymous p fn b = add_hook p (anonymous fn) b
