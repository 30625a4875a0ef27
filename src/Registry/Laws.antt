-- ===== src/Registry/Laws.antt =====
-- The registry against a partial function from contract types to implementations.
use appmod.Common.{
  ℕ, List, [], ◌∷◌, Option, none, some, Bool, true, false, ite, ℕ_discrete, ◌≡◌, refl, inl, inr,
  arith, Option-cases, Bool-cases,
}
use appmod.Errors.{
  Err, sentinel, wrapped, contract, nil_registry, nil_implementation, duplicate_provider,
}
use appmod.Registry.{
  Registry, Value, Types, find, store, erase, provide, require, revoke, is_nil_impl, impl,
}

-- No contract stands twice.
abbrev pub IsMap : List (ℕ × Value) → Type 0
IsMap [] = Unit
IsMap ((u, v) ∷ s) = (find u s ≡ none) × IsMap s

pub find-store :
    (t u : ℕ) (v : Value) (s : List (ℕ × Value))
    → find u (store t v s) ≡ ite (ℕ_discrete t u) (some v) (find u s)
unfolding find store
find-store t u v [] = refl
find-store t u v ((k, w) ∷ s) = ground (arith, find-store t u v s)

pub find-erase :
    (t u : ℕ) (s : List (ℕ × Value))
    → IsMap s
    → find u (erase t s) ≡ ite (ℕ_discrete t u) none (find u s)
unfolding find erase
find-erase t u [] m = ground arith
find-erase t u ((k, w) ∷ s) m = ground (arith, find-erase t u s m.1)

store-IsMap : (t : ℕ) (v : Value) (s : List (ℕ × Value)) → IsMap s → IsMap (store t v s)
unfolding store find
store-IsMap t v [] m = (refl, tt)
store-IsMap t v ((k, w) ∷ s) m = ground (arith, find-store t k v s, store-IsMap t v s m.1)

erase-IsMap : (t : ℕ) (s : List (ℕ × Value)) → IsMap s → IsMap (erase t s)
unfolding erase
erase-IsMap t [] m = tt
erase-IsMap t ((k, w) ∷ s) m = ground (arith, find-erase t k s m.1, erase-IsMap t s m.1)

pub erase-store :
    (t : ℕ) (v : Value) (s : List (ℕ × Value)) → find t s ≡ none → erase t (store t v s) ≡ s
unfolding find store erase
erase-store t v [] h = ground arith
erase-store t v ((k, w) ∷ s) h = ground (arith, erase-store t v s)

-- A contract after the registry was told that `t` has the implementation `o`.
abbrev pub updated : Registry → ℕ → Option Value → ℕ → Option Value
updated r t o u = ite (ℕ_discrete t u) o (find u r.services)

module _ (types : Types) where
  open types use {kind, asserts}

  -- `Provide` stores the implementation exactly if the registry is not nil, the implementation is
  -- not nil and the contract is free; otherwise it reports which of these failed, in that order,
  -- and leaves the registry as it was. No other contract changes, and none stands twice.
  pub data Provided (t : ℕ) (v : Value) (r : Option Registry) (res : Option Err)
      (r' : Option Registry) : Type 0 where
    no_registry : r ≡ none → res ≡ some (sentinel nil_registry) → r' ≡ r → Provided t v r res r'
    nil_value :
        is_nil_impl (kind t) v ≡ true
        → res ≡ some (wrapped (contract t) (sentinel nil_implementation))
        → r' ≡ r
        → Provided t v r res r'
    taken :
        (q : Registry) (w : Value)
        → r ≡ some q
        → is_nil_impl (kind t) v ≡ false
        → find t q.services ≡ some w
        → res ≡ some (wrapped (contract t) (sentinel duplicate_provider))
        → r' ≡ r
        → Provided t v r res r'
    stored :
        (q q' : Registry)
        → r ≡ some q
        → r' ≡ some q'
        → res ≡ none
        → is_nil_impl (kind t) v ≡ false
        → find t q.services ≡ none
        → ((u : ℕ) → find u q'.services ≡ updated q t (some v) u)
        → (IsMap q.services → IsMap q'.services)
        → Provided t v r res r'

  -- `Provide`, on each of its branches: without a registry, with a nil value and with a contract
  -- that is taken it returns the error for this and changes nothing; else it stores the value.
  pub provide-Provided :
      (t : ℕ) (v : Value) (r : Option Registry)
      → let w = provide types t r v in Provided t v r w.0 w.1
  unfolding provide
  provide-Provided t v none = no_registry refl refl refl
  provide-Provided t v (some r) = elim (Bool-cases (is_nil_impl (kind t) v)) [
    | inl n ↦ rw (n, provide) (nil_value n refl refl)
    | inr n ↦ elim (Option-cases (find t r.services)) [
      | inr (w, f) ↦ rw (n, f, provide) (taken r w refl n f refl refl)
      | inl f ↦
          rw (n, f, provide)
            (stored r (record { services = store t v r.services }) refl refl refl n f
              (λ u. find-store t u v r.services) (store-IsMap t v r.services))
    ]
  ]

  -- A value that is not nil and has the type of its contract, provided under a contract that is
  -- free, is what `Require` returns for the contract, and revoking it restores the registry.
  pub require-provide :
      (t : ℕ) (v : Value) (r : Registry)
      → is_nil_impl (kind t) v ≡ false
      → asserts t v.dynamic ≡ true
      → find t r.services ≡ none
      → (require types t (provide types t (some r) v).1 ≡ impl v)
        × (revoke t (provide types t (some r) v).1 ≡ (true, none, some r))
  unfolding provide require revoke
  require-provide t v r n a f = (
    ground (arith, find-store t t v r.services),
    ground (arith, find-store t t v r.services, erase-store t v r.services f),
  )

abbrev pub is_found : Option Value → Bool
is_found none = false
is_found (some v) = true

-- `Revoke` of a registry in which no contract stands twice removes the contract and no other,
-- reports whether it was there, and leaves no contract standing twice.
pub revoke_lem :
    (t : ℕ) (r : Registry)
    → IsMap r.services
    → (r' : Registry) × (revoke t (some r) ≡ (is_found (find t r.services), none, some r'))
      × ((u : ℕ) → find u r'.services ≡ updated r t none u)
      × IsMap r'.services
unfolding revoke
revoke_lem t r m = elim (Option-cases (find t r.services)) [
  | inl f ↦ (r, rw (f, revoke), (λ u. ground (arith, f)), m)
  | inr (v, f) ↦ (
    record { services = erase t r.services },
    rw (f, revoke),
    (λ u. find-erase t u r.services m),
    erase-IsMap t r.services m,
  )
]
