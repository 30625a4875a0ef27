-- ===== src/Manager/Soundness.antt =====
-- What holds of a manager between two operations, and the operations that run no module keep it.
use appmod.Common.{
  ℕ, ℤ, ◌≤◌, Name, List, [], ◌∷◌, Option, none, some, Bool, true, false, count, ◌≡◌, ap, arith,
  Perm, inl, inr, count-perm, ◌≢◌,
}
use appmod.Manager.Defs.{
  Manager, ManagerOption, ManagerState, keys, created, starting, running, register, register_node,
  begin_run, apply_options, with_logger, with_shutdown_timeout, with_signals,
  with_force_on_second_signal, claim_run,
}
use appmod.Manager.Counting.{IsMap}
use appmod.Manager.Known.{find_node_cases}
use appmod.Manager.Stopping.{WellFormed}

-- What holds of a manager at rest: no name is registered twice, everything that is started is
-- registered and was started once, no start is under way, and a new manager has nothing started.
pub record IsSound (m : Manager) : Type 0 where
  pub is_map : IsMap m.nodes
  pub well_formed : WellFormed m
  pub rested : m.state ≢ starting
  pub fresh : m.state ≡ created → m.started ≡ []

-- The options of `NewManager`.
pub data IsOption : ManagerOption → Type 0 where
  logger : (l : Option ℕ) → IsOption (with_logger l)
  shutdown_timeout : (d : ℤ) → IsOption (with_shutdown_timeout d)
  signals : (s : List ℕ) → IsOption (with_signals s)
  force : (v : Bool) → IsOption (with_force_on_second_signal v)

-- A manager in which nothing has happened.
abbrev pub IsNew : Manager → Type 0
IsNew m = (m.nodes ≡ []) × (m.started ≡ []) × (m.state ≡ created)

IsOption-IsNew : (o : ManagerOption) (m : Manager) → IsOption o → IsNew m → IsNew (o m)
unfolding with_logger with_shutdown_timeout with_signals with_force_on_second_signal
IsOption-IsNew _ m (logger l) h = h
IsOption-IsNew _ m (shutdown_timeout d) h = h
IsOption-IsNew _ m (signals s) h = h
IsOption-IsNew _ m (force v) h = h

-- Options from `NewManager`'s.
pub data AreOptions : List ManagerOption → Type 0 where
  no_option : AreOptions []
  one_more :
      (o : ManagerOption) (os : List ManagerOption)
      → IsOption o
      → AreOptions os
      → AreOptions (o ∷ os)

pub apply_options-IsNew :
    (os : List ManagerOption) (m : Manager) → AreOptions os → IsNew m → IsNew (apply_options os m)
unfolding apply_options
apply_options-IsNew _ m no_option h = h
apply_options-IsNew _ m (one_more o os p ps) h =
    apply_options-IsNew os (o m) ps (IsOption-IsNew o m p h)

pub IsNew-IsSound : (m : Manager) → IsNew m → IsSound m
IsNew-IsSound m (n, s, c) = record {
  is_map = λ d. omega (arith, ap (λ ns. count d (keys ns)) n);
  well_formed = record {
    registered = λ d o. omega (arith, ap (count d) s);
    distinct = λ d. omega (arith, ap (count d) s);
  };
  rested = λ e. cc;
  fresh = λ _. s;
}

pub register-IsSound :
    (name : Name) (module' : Option ℕ) (deps : List Name) (m : Manager)
    → IsSound m
    → IsSound (register name module' deps m).1
unfolding register register_node
register-IsSound [] module' deps m v = v
register-IsSound (c ∷ cs) none deps m v = v
register-IsSound (c ∷ cs) (some h) deps m v = elim (find_node_cases (c ∷ cs) m.nodes) [
  | inr (n, p, q) ↦ rw p v
  | inl (p, q) ↦ rw p (record {
    is_map = λ d. ground (arith, v.is_map d, q);
    well_formed = record {
      registered = λ d o. ground (arith, v.well_formed.registered d o);
      distinct = v.well_formed.distinct;
    };
    rested = v.rested;
    fresh = v.fresh;
  })
]

pub begin_run-IsSound : (m : Manager) → IsSound m → IsSound (begin_run m).1
unfolding begin_run
begin_run-IsSound m v = go m.ran
  where
    go : (b : Bool) → IsSound (claim_run b m).1
    go true = v
    go false = record {
      is_map = v.is_map;
      well_formed = record {
        registered = v.well_formed.registered;
        distinct = v.well_formed.distinct;
      };
      rested = v.rested;
      fresh = v.fresh;
    }

-- Fewer modules are started, or none that was not.
pub fewer-IsSound :
    (m : Manager) (st : ManagerState) (names : List Name)
    → IsSound m
    → ((d : Name) → count d names ≤ count d m.started)
    → st ≢ starting
    → st ≢ created
    → IsSound (record m { started = names; state = st })
fewer-IsSound m st names v c r n = record {
  is_map = v.is_map;
  well_formed = record {
    registered = λ d o. v.well_formed.registered d (omega (arith, c d));
    distinct = λ d. omega (arith, c d, v.well_formed.distinct d);
  };
  rested = r;
  fresh = λ e. absurd (n e);
}

pub up-IsSound :
    (m : Manager) (names : List Name)
    → IsSound m
    → Perm names (keys m.nodes)
    → IsSound (record m { started = names; state = running })
up-IsSound m names v p = record {
  is_map = v.is_map;
  well_formed = record {
    registered = λ d o. omega (arith, count-perm d p);
    distinct = λ d. omega (arith, count-perm d p, v.is_map d);
  };
  rested = λ e. cc;
  fresh = λ e. cc;
}
