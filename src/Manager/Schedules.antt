-- ===== src/Manager/Schedules.antt =====
-- Schedules of callers of a manager, and the theorem on callers at one.
use appmod.Common.{ℕ, ℕ_discrete, [], ◌≡◌, refl}
use appmod.Common.Turns.{IsExclusive}
use appmod.Manager.Defs.{Manager, new_manager, set_state}
use appmod.Manager.Startup.{begin_start}
use appmod.Manager.Callers.{
  Position, outside, at_start, at_stop, Move, Scene, turn, Played, opening, next, state_inside,
  is_taken,
}
use appmod.Manager.Exclusion.{inside-is_taken, Played-IsAlone}

-- A scene, with how it was come to.
record Show (free : Type 0) : Type 0 where
  last : Scene
  played : Played free last

abbrev first : (free : Type 0) → Show free
unfolding new_manager
first free = record { last = _; played = opening (new_manager 0 []) refl }

abbrev and_then :
    {free : Type 0} (w : Show free) (i : ℕ) (m : Manager) (p : Position)
    → Move free w.last.manager (w.last.position i) m p
    → Show free
and_then w i m p t = record { last = _; played = next w.last _ w.played (turn i m p t) }

-- The caller 0 is in `Start`.
abbrev started : (free : Type 0) → Show free
unfolding ℕ_discrete begin_start set_state new_manager
started free = and_then (first free) 0 _ at_start (Move.claims_start refl)

Played-IsAlone_example :
    IsExclusive state_inside is_taken inside-is_taken
      (started ⊥).last.manager.state
      (started ⊥).last.position
Played-IsAlone_example = Played-IsAlone (started ⊥).last (started ⊥).played

-- The caller 1 stops the manager, and the caller 2 starts it, while the caller 0 is in `Start`.
abbrev both : Show (Unit {0})
unfolding ℕ_discrete begin_start set_state new_manager started
both =
    let a = and_then (started Unit) 1 _ at_stop (Move.enters_stop (λ e. tt)) in
    let b = and_then a 1 _ outside Move.all_down in and_then b 2 _ at_start (Move.claims_start refl)

two_starts : (both.last.position 0 ≡ at_start) × (both.last.position 2 ≡ at_start)
unfolding both
two_starts = (refl, refl)
