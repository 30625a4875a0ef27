-- ===== src/Manager/Exclusion.antt =====
-- No two callers are in `Start` at once, unless a `Stop` comes in between.
use appmod.Common.{
  ℕ, Name, List, [], ◌∷◌, Option, none, some, Bool, true, false, ◌≡◌, refl, sym, ap,
}
use appmod.Common.Turns.{IsExclusive, Kind, passes, enters, stays, exits, resets, Kind-IsExclusive}
use mathlib.Core.Option.{some-injective}
use appmod.Errors.{Err, sentinel, already_started}
use appmod.Manager.Defs.{
  Node, Manager, ManagerState, created, starting, running, stopped, set_state, register,
  register_node, find_node, begin_run, claim_run,
}
use appmod.Manager.Teardown.{forget}
use appmod.Manager.Startup.{begin_start, begin_idle, can_start}
use appmod.Manager.Callers.{
  Position, outside, at_start, unwinding, at_stop, Move, Scene, turn, Played, opening, next,
  state_inside, is_taken,
}

pub inside-is_taken :
    (p : Position) (e : ManagerState) → state_inside p ≡ some e → is_taken e ≡ true
inside-is_taken outside e q = cc
inside-is_taken at_start e q = cc (ap is_taken (some-injective _ _ q))
inside-is_taken unwinding e q = cc
inside-is_taken at_stop e q = cc

abbrev MoveKind : Manager → Position → Manager → Position → Type 0
MoveKind m p m' p' = Kind state_inside is_taken inside-is_taken m.state p m'.state p'

register-state :
    (name : Name) (module' : Option ℕ) (deps : List Name) (m : Manager)
    → (register name module' deps m).1.state ≡ m.state
unfolding register register_node
register-state [] module' deps m = refl
register-state (c ∷ cs) none deps m = refl
register-state (c ∷ cs) (some h) deps m = go (find_node (c ∷ cs) m.nodes)
  where
    go : (o : Option Node) → (register_node (c ∷ cs) h deps o m).1.state ≡ m.state
    go none = refl
    go (some n) = refl

begin_run-state : (m : Manager) → (begin_run m).1.state ≡ m.state
unfolding begin_run
begin_run-state m = go m.ran
  where
    go : (b : Bool) → (claim_run b m).1.state ≡ m.state
    go true = refl
    go false = refl

startable : (st : ManagerState) → can_start st ≡ true → is_taken st ≡ false
startable created e = refl
startable starting e = cc
startable running e = cc
startable stopped e = refl

-- `beginStart` refuses and changes nothing, or it finds the manager free and claims it.
data Begun (m : Manager) : Option Err × Manager → Type 0 where
  refused : (e : Err) → Begun m (some e, m)
  claimed : is_taken m.state ≡ false → Begun m (none, set_state starting m)

begin_start-Begun : (m : Manager) → Begun m (begin_start m)
unfolding begin_start begin_idle set_state
begin_start-Begun m = go (can_start m.state) refl
  where
    idle : is_taken m.state ≡ false → (l : List Name) → Begun m (begin_idle l m)
    idle t [] = claimed t
    idle t (x ∷ xs) = refused _

    go :
        (b : Bool)
        → can_start m.state ≡ b
        → Begun m (elim b [
          | false ↦ (some (sentinel already_started), m)
          | true ↦ begin_idle m.started m
        ])
    go false e = refused _
    go true e = idle (startable m.state e) m.started

Begun-refuses :
    (m : Manager) (v : Option Err × Manager) (e : Err)
    → Begun m v
    → v.0 ≡ some e
    → MoveKind m outside v.1 outside
Begun-refuses m _ e (refused e') q = passes refl refl refl
Begun-refuses m _ e (claimed t) q = cc

Begun-claims :
    (m : Manager) (v : Option Err × Manager)
    → Begun m v
    → v.0 ≡ none
    → MoveKind m outside v.1 at_start
unfolding set_state
Begun-claims m _ (refused e') q = cc
Begun-claims m _ (claimed t) q = enters t refl

untaken : (st : ManagerState) → (st ≡ starting → ⊥) → is_taken st ≡ false
untaken created f = refl
untaken starting f = absurd (f refl)
untaken running f = refl
untaken stopped f = refl

Move-Kind : (m m' : Manager) (p p' : Position) → Move ⊥ m p m' p' → MoveKind m p m' p'
unfolding set_state forget
Move-Kind m _ _ _ (Move.refused_start e q) =
    Begun-refuses m (begin_start m) e (begin_start-Begun m) q
Move-Kind m _ _ _ (Move.claims_start q) = Begun-claims m (begin_start m) (begin_start-Begun m) q
Move-Kind m _ _ _ Move.not_planned = exits starting refl refl refl
Move-Kind m _ _ _ (Move.came_up x) = stays starting refl (λ e. ap some (sym e))
Move-Kind m _ _ _ Move.aborted = exits starting refl refl refl
Move-Kind m _ _ _ (Move.unwound x) = passes refl refl refl
Move-Kind m _ _ _ Move.gave_up = passes refl refl refl
Move-Kind m _ _ _ Move.all_up = exits starting refl refl refl
Move-Kind m _ _ _ (Move.enters_stop f) = resets refl refl (untaken m.state f) refl
Move-Kind m _ _ _ (Move.went_down x) = passes refl refl refl
Move-Kind m _ _ _ Move.all_down = passes refl refl refl
Move-Kind m _ _ _ (Move.registered name module' deps) =
    passes refl refl (register-state name module' deps m)
Move-Kind m _ _ _ Move.claimed_run = passes refl refl (begin_run-state m)

-- In every schedule of any number of callers in which no `Stop` is entered while a `Start` is under
-- way, at most one caller is in `Start` and has not begun to take back what it did. The manager is
-- Starting exactly while there is one.
pub Played-IsAlone :
    (s : Scene)
    → Played ⊥ s
    → IsExclusive state_inside is_taken inside-is_taken s.manager.state s.position
Played-IsAlone _ (opening m e) = record {
  held = λ i e q. cc;
  alone = λ i j e e' q q'. cc;
  owned = λ t. cc;
}
Played-IsAlone _ (next s0 _ r (turn i m p t)) =
    Kind-IsExclusive state_inside is_taken inside-is_taken s0.manager.state s0.position i m.state p
      (Move-Kind s0.manager m (s0.position i) p t) (Played-IsAlone s0 r)
