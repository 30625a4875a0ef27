-- ===== src/Base/Exclusion.antt =====
-- No two callers are inside the lifecycle of one module, but for the AfterDestroy hooks.
use appmod.Common.{Bool, true, false, ◌≡◌, refl, sym, ap, some}
use mathlib.Core.Option.{some-injective}
use appmod.Common.Turns.{IsExclusive, Kind, passes, enters, stays, exits, Kind-IsExclusive}
use appmod.Base.Defs.{State, created, initializing, running, destroying, destroyed, failed}
use appmod.Base.Lifecycle.{can_init, is_running}
use appmod.Base.Callers.{
  Position, outside, before_starting, after_starting, rolling_back, before_destroying, cleaning,
  after_destroying, Move, Scene, turn, Played, opening, next, state_inside,
}

-- A state that has a caller inside.
abbrev pub is_taken : State → Bool
is_taken initializing = true
is_taken destroying = true
is_taken created = false
is_taken running = false
is_taken destroyed = false
is_taken failed = false

pub inside-is_taken : (p : Position) (e : State) → state_inside p ≡ some e → is_taken e ≡ true
inside-is_taken outside e q = cc
inside-is_taken before_starting e q = cc (ap is_taken (some-injective _ _ q))
inside-is_taken after_starting e q = cc (ap is_taken (some-injective _ _ q))
inside-is_taken rolling_back e q = cc (ap is_taken (some-injective _ _ q))
inside-is_taken before_destroying e q = cc (ap is_taken (some-injective _ _ q))
inside-is_taken cleaning e q = cc (ap is_taken (some-injective _ _ q))
inside-is_taken after_destroying e q = cc

free_to_init : (s : State) → can_init s ≡ true → is_taken s ≡ false
free_to_init created e = refl
free_to_init initializing e = cc
free_to_init running e = refl
free_to_init destroying e = cc
free_to_init destroyed e = refl
free_to_init failed e = refl

free_to_destroy : (s : State) → is_running s ≡ true → is_taken s ≡ false
free_to_destroy created e = refl
free_to_destroy initializing e = cc
free_to_destroy running e = refl
free_to_destroy destroying e = cc
free_to_destroy destroyed e = refl
free_to_destroy failed e = refl

Move-Kind :
    (s s' : State) (p p' : Position)
    → Move s p s' p'
    → Kind state_inside is_taken inside-is_taken s p s' p'
Move-Kind s _ _ _ (Move.refused_init e) = passes refl refl refl
Move-Kind s _ _ _ (Move.claims_init e) = enters (free_to_init s e) refl
Move-Kind s _ _ _ Move.before_start_ran = stays initializing refl (λ e. ap some (sym e))
Move-Kind s _ _ _ Move.before_start_failed = stays initializing refl (λ e. refl)
Move-Kind s _ _ _ Move.after_start_ran = exits initializing refl refl refl
Move-Kind s _ _ _ Move.after_start_failed = stays initializing refl (λ e. refl)
Move-Kind s _ _ _ Move.rolled_back = exits destroying refl refl refl
Move-Kind s _ _ _ (Move.refused_destroy e) = passes refl refl refl
Move-Kind s _ _ _ (Move.claims_destroy e) = enters (free_to_destroy s e) refl
Move-Kind s _ _ _ Move.before_destroy_ran = stays destroying refl (λ e. ap some (sym e))
Move-Kind s _ _ _ Move.before_destroy_failed = exits destroying refl refl refl
Move-Kind s _ _ _ Move.cleaned = exits destroying refl refl refl
Move-Kind s _ _ _ Move.after_destroy_ended = passes refl refl refl

-- In every schedule of any number of callers of `Init` and `Destroy`, at most one is behind its
-- guard and not yet in the AfterDestroy hooks. The module is Initializing or Destroying exactly
-- while there is one, as its position says.
pub Played-IsExclusive :
    (s : Scene) → Played s → IsExclusive state_inside is_taken inside-is_taken s.state s.position
Played-IsExclusive _ opening = record {
  held = λ i e q. cc;
  alone = λ i j e e' q q'. cc;
  owned = λ t. cc;
}
Played-IsExclusive _ (next s0 _ r (turn i st p m)) =
    Kind-IsExclusive state_inside is_taken inside-is_taken s0.state s0.position i st p
      (Move-Kind s0.state st (s0.position i) p m) (Played-IsExclusive s0 r)
