-- ===== src/Registry.antt =====
-- registry.go: services by contract, with `Provide`, `Require` and `Revoke`.
pub mod Laws
pub mod Typing
mod Examples
use appmod.Common.{ℕ, List, [], ◌∷◌, Option, none, some, Bool, true, false, ite, ℕ_discrete, ◌⊎◌}
use appmod.Errors.{
  Err, sentinel, wrapped, contract, contract_registered_as, nil_registry, nil_implementation,
  duplicate_provider, provider_not_found,
}

-- `reflect.Kind` of a contract type, as far as `isNilImpl` tells kinds apart.
pub data Kind : Type 0 where
  interface pointer map slice func chan unsafe_pointer other : Kind

-- A value stored as `any`: its dynamic type, and whether it is nil.
pub record Value : Type 0 where
  pub dynamic : ℕ
  pub is_nil : Bool
  pub content : ℕ

-- The map `services`, by the number of a contract type. No key stands in it twice.
pub record Registry : Type 0 where
  pub services : List (ℕ × Value)

unfoldable pub new_registry : Registry
new_registry = record { services = [] }

-- `v, ok := services[t]`.
unfoldable pub find : ℕ → List (ℕ × Value) → Option Value
find t [] = none
find t ((u, v) ∷ s) = ite (ℕ_discrete u t) (some v) (find t s)

-- `services[t] = v`.
unfoldable pub store : ℕ → Value → List (ℕ × Value) → List (ℕ × Value)
store t v [] = (t, v) ∷ []
store t v ((u, w) ∷ s) = ite (ℕ_discrete u t) ((t, v) ∷ s) ((u, w) ∷ store t v s)

-- `delete(services, t)`.
unfoldable pub erase : ℕ → List (ℕ × Value) → List (ℕ × Value)
erase t [] = []
erase t ((u, w) ∷ s) = ite (ℕ_discrete u t) s ((u, w) ∷ erase t s)

unfoldable pub is_nil_impl : Kind → Value → Bool
is_nil_impl other v = false
is_nil_impl _ v = v.is_nil

-- Go's type system: a contract type has a kind, and `v.(T)` succeeds for some dynamic types.
pub record Types : Type 0 where
  pub kind : ℕ → Kind
  pub asserts : (t dynamic : ℕ) → Bool

module _ (types : Types) where
  open types use {kind, asserts}

  -- The error and the registry behind the call. A nil registry is none.
  unfoldable pub provide : ℕ → Option Registry → Value → Option Err × Option Registry
  unfolding is_nil_impl find store
  provide t none v = (some (sentinel nil_registry), none)
  provide t (some r) v = elim (is_nil_impl (kind t) v) [
    | true ↦ (some (wrapped (contract t) (sentinel nil_implementation)), some r)
    | false ↦ elim (find t r.services) [
      | some w ↦ (some (wrapped (contract t) (sentinel duplicate_provider)), some r)
      | none ↦ (none, some (record { services = store t v r.services }))
    ]
  ]

  -- An implementation, or the error that comes with the zero value.
  pub data Found : Type 0 where
    impl : Value → Found
    missing : Err → Found

  unfoldable pub require : ℕ → Option Registry → Found
  unfolding find
  require t none = missing (sentinel nil_registry)
  require t (some r) = elim (find t r.services) [
    | none ↦ missing (wrapped (contract t) (sentinel provider_not_found))
    | some v ↦ elim (asserts t v.dynamic) [
      | true ↦ impl v
      | false ↦ missing (wrapped (contract_registered_as t v.dynamic) (sentinel provider_not_found))
    ]
  ]

-- Whether an entry was removed, the error, and the registry behind the call.
unfoldable pub revoke : ℕ → Option Registry → Bool × Option Err × Option Registry
unfolding find erase
revoke t none = (false, some (sentinel nil_registry), none)
revoke t (some r) = elim (find t r.services) [
  | none ↦ (false, none, some r)
  | some v ↦ (true, none, some (record { services = erase t r.services }))
]
