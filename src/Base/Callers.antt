-- ===== src/Base/Callers.antt =====
-- base.go among goroutines: any number of callers of `Init` and `Destroy` of one module, which take
-- turns at the points where the code locks the mutex.
use appmod.Common.{ℕ, true, false, ◌≡◌, Option, none, some}
use appmod.Common.Turns.{move_to}
use appmod.Base.Defs.{State, created, initializing, running, destroying, destroyed, failed}
use appmod.Base.Lifecycle.{can_init, is_running}

-- Where a caller is: outside, or behind the guard of `Init` or `Destroy`.
pub data Position : Type 0 where
  outside : Position
  before_starting : Position
  after_starting : Position
  rolling_back : Position
  before_destroying : Position
  cleaning : Position
  after_destroying : Position

-- One caller moves, and the state of the module with it.
pub data Move (s : State) : Position → State → Position → Type 0 where
  refused_init : can_init s ≡ false → Move s outside s outside
  claims_init : can_init s ≡ true → Move s outside initializing before_starting
  before_start_ran : Move s before_starting s after_starting
  before_start_failed : Move s before_starting destroying rolling_back
  after_start_ran : Move s after_starting running outside
  after_start_failed : Move s after_starting destroying rolling_back
  rolled_back : Move s rolling_back failed outside
  refused_destroy : is_running s ≡ false → Move s outside s outside
  claims_destroy : is_running s ≡ true → Move s outside destroying before_destroying
  before_destroy_ran : Move s before_destroying s cleaning
  before_destroy_failed : Move s before_destroying running outside
  cleaned : Move s cleaning destroyed after_destroying
  after_destroy_ended : Move s after_destroying s outside

-- A module and its callers.
pub record Scene : Type 0 where
  pub state : State
  pub position : ℕ → Position

pub data Turn (s : Scene) : Scene → Type 0 where
  turn :
      (i : ℕ) (st : State) (p : Position)
      → Move s.state (s.position i) st p
      → Turn s (record { state = st; position = move_to i p s.position })

-- The scenes that the callers of a new module come to.
pub data Played : Scene → Type 0 where
  opening : Played (record { state = created; position = λ i. outside })
  next : (s s' : Scene) → Played s → Turn s s' → Played s'

-- The state of a module while a caller is inside; none where the module may be in any state.
abbrev pub state_inside : Position → Option State
state_inside outside = none
state_inside before_starting = some initializing
state_inside after_starting = some initializing
state_inside rolling_back = some destroying
state_inside before_destroying = some destroying
state_inside cleaning = some destroying
state_inside after_destroying = none
