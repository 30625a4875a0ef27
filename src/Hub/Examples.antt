-- ===== src/Hub/Examples.antt =====
-- A hub whose drain fails, and the theorems at it.
use appmod.Common.{ℕ, none, some, List, [], ◌∷◌, true, false, ◌≡◌, refl, ite, ℕ_discrete}
use appmod.Errors.{foreign, is_err?, duplicate_provider}
use appmod.Base.Defs.{created, failed}
use appmod.Base.Environment.{Environment, given, returned}
use appmod.Registry.{Value, Types, pointer, find, store, erase}
use appmod.Base.Lifecycle.{Run}
use appmod.Registry.Laws.{IsMap}
use appmod.Hub.{Bus, Shared}
use appmod.Hub.Restart.{at, starts, stops, registry_of, starts-stops, starts-revoke}

abbrev silent : Environment
silent = record {
  World = ℕ;
  ctx_err = λ c w. none;
  call_hook = λ fn ctx v w. (record { effects = []; outcome = returned none }, w);
  call_cleanup = λ fn ctx w. (record { effects = []; outcome = returned none }, w);
}

abbrev bus : Bus
bus = record { env = silent; drain = λ ctx w. (some (foreign 1), w); close = λ ctx w. (none, w) }

abbrev pointers : Types
pointers = record { kind = λ t. pointer; asserts = λ t d. true }

abbrev hub : Value
hub = record { dynamic = 5; is_nil = false; content = 1 }

abbrev other_hub : Value
other_hub = record { dynamic = 5; is_nil = false; content = 2 }

abbrev fresh_at : List (ℕ × Value) → Run (Shared ℕ)
fresh_at s = at pointers 5 bus hub (given 0) s 0 (0 ∷ []) created

starts-stops_example :
    let up = starts pointers 5 bus hub (given 0) (fresh_at []) in
    let down = stops pointers 5 bus hub (given 0) up.1 in
    let again = starts pointers 5 bus hub (given 0) down.1 in
    let kept = stops pointers 5 bus hub (given 0) again.1 in
    let third = starts pointers 5 bus hub (given 0) kept.1 in
    (up.0 ≡ none)
    × (registry_of pointers 5 bus hub (given 0) up ≡ some (record { services = store 5 hub [] }))
    × (registry_of pointers 5 bus hub (given 0) down ≡ some (record { services = [] }))
    × (again.0 ≡ none)
    × (registry_of pointers 5 bus hub (given 0) kept ≡ some (record { services = store 5 hub [] }))
    × (is_err? third.0 duplicate_provider ≡ true)
    × (third.1.base.state ≡ failed)
unfolding find
starts-stops_example = starts-stops pointers 5 bus hub (given 0) [] 0 refl refl refl

found_other : find 5 ((5, other_hub) ∷ []) ≡ some other_hub
unfolding find ℕ_discrete
found_other = refl

alone : IsMap ((5, other_hub) ∷ [])
unfolding find
alone = (refl, tt)

starts-revoke_example :
    let r = starts pointers 5 bus hub (given 0) (fresh_at ((5, other_hub) ∷ [])) in
    (is_err? r.0 duplicate_provider ≡ true)
    × (r.1.base.state ≡ failed)
    × (registry_of pointers 5 bus hub (given 0) r
        ≡ some (record { services = erase 5 ((5, other_hub) ∷ []) }))
    × ((u : ℕ)
        → find u (erase 5 ((5, other_hub) ∷ []))
          ≡ ite (ℕ_discrete 5 u) none (find u ((5, other_hub) ∷ [])))
starts-revoke_example =
    starts-revoke pointers 5 bus hub (given 0) ((5, other_hub) ∷ []) 0 other_hub refl refl
      found_other alone
