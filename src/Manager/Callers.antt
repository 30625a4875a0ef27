-- ===== src/Manager/Callers.antt =====
-- manager.go among goroutines: any number of callers of the operations of one manager, which take
-- turns at the sections that its mutex makes.
use appmod.Common.{ℕ, Name, List, [], ◌∷◌, ◌++◌, Option, none, some, Bool, true, false, ◌≡◌}
use appmod.Common.Turns.{move_to}
use appmod.Errors.{Err}
use appmod.Manager.Defs.{
  Manager, ManagerState, created, starting, running, stopped, set_state, register, begin_run,
}
use appmod.Manager.Teardown.{forget}
use appmod.Manager.Startup.{begin_start}

-- Where a caller is: outside, in `Start` behind its guard, in the `Stop` by which a `Start` takes
-- back what it did, or in another `Stop`.
pub data Position : Type 0 where
  outside : Position
  at_start : Position
  unwinding : Position
  at_stop : Position

-- One caller moves, and the manager with it. `Stop` may come in the middle of a `Start` if `free`
-- holds.
pub data Move (free : Type 0) (m : Manager) : Position → Manager → Position → Type 0 where
  refused_start :
      (e : Err) → (begin_start m).0 ≡ some e → Move free m outside (begin_start m).1 outside
  claims_start : (begin_start m).0 ≡ none → Move free m outside (begin_start m).1 at_start
  not_planned : Move free m at_start (set_state stopped m) outside
  came_up : (x : Name) → Move free m at_start (record m { started = m.started ++ x ∷ [] }) at_start
  aborted : Move free m at_start (set_state stopped m) unwinding
  unwound : (x : Name) → Move free m unwinding (forget x m) unwinding
  gave_up : Move free m unwinding m outside
  all_up : Move free m at_start (set_state running m) outside
  enters_stop : (m.state ≡ starting → free) → Move free m outside (set_state stopped m) at_stop
  went_down : (x : Name) → Move free m at_stop (forget x m) at_stop
  all_down : Move free m at_stop m outside
  registered :
      (name : Name) (module' : Option ℕ) (deps : List Name)
      → Move free m outside (register name module' deps m).1 outside
  claimed_run : Move free m outside (begin_run m).1 outside

-- A manager and its callers.
pub record Scene : Type 0 where
  pub manager : Manager
  pub position : ℕ → Position

module _ (free : Type 0) where
  pub data Turn (s : Scene) : Scene → Type 0 where
    turn :
        (i : ℕ) (m : Manager) (p : Position)
        → Move free s.manager (s.position i) m p
        → Turn s (record { manager = m; position = move_to i p s.position })

  -- The scenes that the callers of a new manager come to.
  pub data Played : Scene → Type 0 where
    opening :
        (m : Manager) → m.state ≡ created → Played (record { manager = m; position = λ i. outside })
    next : (s s' : Scene) → Played s → Turn s s' → Played s'

abbrev pub state_inside : Position → Option ManagerState
state_inside outside = none
state_inside at_start = some starting
state_inside unwinding = none
state_inside at_stop = none

abbrev pub is_taken : ManagerState → Bool
is_taken created = false
is_taken starting = true
is_taken running = false
is_taken stopped = false
