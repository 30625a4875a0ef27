-- ===== src/AppContext.antt =====
-- appcontext.go: what a manager hands to its modules.
use appmod.Common.{ℕ, Option, none, some, Bool, false}
use appmod.Registry.{Registry, new_registry}

-- `shutdown` is the context of the shutdown sequence, none where there is none.
pub record AppContext : Type 0 where
  pub registry : Registry
  pub logger : Option ℕ
  pub shutdown : Option ℕ

module _ (channel : ℕ → ℕ) where
  -- `Done`: none is the nil channel. `channel` is `Done` of a context.
  unfoldable pub done : Option AppContext → Option ℕ
  done none = none
  done (some c) = elim c.shutdown [ none ↦ none | some ctx ↦ some (channel ctx) ]

module _ (background : ℕ) where
  -- `Context`; `background` is `context.Background()`.
  unfoldable pub context : Option AppContext → ℕ
  context none = background
  context (some c) = elim c.shutdown [ none ↦ background | some ctx ↦ ctx ]

-- The context that `NewManager` makes, of its logger and of the shutdown sequence.
unfoldable pub app_context : Option ℕ → ℕ → AppContext
unfolding new_registry
app_context logger sh_context = record {
  registry = new_registry;
  logger = logger;
  shutdown = some sh_context;
}

-- A receive from a channel goes through at once. The nil channel blocks forever.
abbrev pub is_closed {ℓ} : {W : Type ℓ} → (ℕ → W → Bool) → Option ℕ → W → Bool
is_closed closed none w = false
is_closed closed (some ch) w = closed ch w
