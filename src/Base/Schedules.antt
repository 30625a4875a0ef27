-- ===== src/Base/Schedules.antt =====
-- A schedule of two callers, and the theorems on callers at it.
use appmod.Common.{ℕ, ℕ_discrete, ◌≡◌, refl}
use appmod.Base.Defs.{State, initializing, running, destroying, destroyed}
use appmod.Base.Callers.{
  Position, outside, before_starting, after_starting, before_destroying, cleaning, after_destroying,
  Move, Scene, turn, Played, opening, next, state_inside,
}
use appmod.Base.Exclusion.{is_taken, inside-is_taken, Played-IsExclusive}
use appmod.Common.Turns.{IsExclusive}

-- A scene, with how it was come to.
record Show : Type 0 where
  last : Scene
  played : Played last

abbrev first : Show
first = record { last = _; played = opening }

abbrev and_then :
    (w : Show) (i : ℕ) (s : State) (p : Position) → Move w.last.state (w.last.position i) s p → Show
and_then w i s p m = record { last = _; played = next w.last _ w.played (turn i s p m) }

-- The caller 0 starts the module and stops it, and is at the AfterDestroy hooks.
abbrev stopping : Show
unfolding ℕ_discrete
stopping =
    let a = and_then first 0 initializing before_starting (Move.claims_init refl) in
    let b = and_then a 0 initializing after_starting Move.before_start_ran in
    let c = and_then b 0 running outside Move.after_start_ran in
    let d = and_then c 0 destroying before_destroying (Move.claims_destroy refl) in
    let e = and_then d 0 destroying cleaning Move.before_destroy_ran in
    and_then e 0 destroyed after_destroying Move.cleaned

-- Meanwhile the caller 1 starts the module again.
abbrev overlapping : Show
unfolding ℕ_discrete
overlapping = and_then stopping 1 initializing before_starting (Move.claims_init refl)

overlap :
    (overlapping.last.position 0 ≡ after_destroying)
    × (overlapping.last.position 1 ≡ before_starting)
unfolding ℕ_discrete
overlap = (refl, refl)

Played-IsExclusive_example :
    IsExclusive state_inside is_taken inside-is_taken overlapping.last.state
      overlapping.last.position
Played-IsExclusive_example = Played-IsExclusive overlapping.last overlapping.played
