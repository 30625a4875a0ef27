-- ===== src/Registry/Examples.antt =====
-- The registry's theorems at concrete inputs.
use appmod.Common.{ℕ, zero, suc, Bool, true, false, none, some, [], ◌∷◌, ◌≡◌, refl, ℕ_discrete, ◌⊎◌}
use appmod.Errors.{sentinel, wrapped, contract, provider_not_found}
use appmod.Registry.{
  Registry, Value, Types, Kind, provide, require, revoke, find, impl, is_nil_impl, new_registry,
  missing,
}
use appmod.Registry.Laws.{require-provide}
use appmod.Registry.Typing.{Grown, made, provided, require-typed}

-- Contract 1 is an interface and contract 2 a struct; a value has the type that it was stored at.
abbrev types : Types
types = record { kind = kinds; asserts = asserts }
  where
    kinds : ℕ → Kind
    kinds t = elim t [
      | suc n ↦ elim n [ zero ↦ Kind.interface | suc m ↦ Kind.other ]
      | zero ↦ Kind.other
    ]

    asserts : ℕ → ℕ → Bool
    asserts t d = true

abbrev service : Value
service = record { dynamic = 5; is_nil = false; content = 42 }

abbrev one : Registry
one = record { services = (2, service) ∷ [] }

require-provide_example :
    (require types 1 (provide types 1 (some one) service).1 ≡ impl service)
    × (revoke 1 (provide types 1 (some one) service).1 ≡ (true, none, some one))
unfolding is_nil_impl find ℕ_discrete
require-provide_example = require-provide types 1 service one refl refl refl

abbrev two : Registry
two = record { services = (1, service) ∷ [] }

two-Grown : Grown types two
unfolding provide new_registry
two-Grown = provided 1 service new_registry two refl made refl

require-typed_example :
    ((v : Value) × (require types 1 (some two) ≡ impl v)
      × (types.asserts 1 v.dynamic ≡ true)
      × (find 1 two.services ≡ some v))
    ⊎ ((require types 1 (some two) ≡ missing (wrapped (contract 1) (sentinel provider_not_found)))
        × (find 1 two.services ≡ none))
require-typed_example = require-typed types two 1 two-Grown
