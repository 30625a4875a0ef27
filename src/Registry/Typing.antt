-- ===== src/Registry/Typing.antt =====
-- registry.go: what `Provide` is given has the type of its contract, and `Require` hands it out so.
use appmod.Common.{
  ℕ, ℕ_discrete, ite, Option, none, some, true, ◌≡◌, refl, sym, ap, ◌∙◌, subst, ◌⊎◌, inl, inr,
  Option-cases,
}
use mathlib.Core.Option.{some-injective}
use appmod.Errors.{Err, sentinel, wrapped, contract, provider_not_found}
use appmod.Registry.{
  Registry, Value, Types, new_registry, find, provide, require, revoke, impl, missing,
}
use appmod.Registry.Laws.{
  IsMap, Provided, provide-Provided, no_registry, nil_value, taken, stored, revoke_lem,
}

module _ (types : Types) where
  open types use {asserts}

  -- A registry that `NewRegistry` made and that was changed by `Provide` and `Revoke`. Go's type
  -- system lets `Provide` of a contract be given only values of its type.
  pub data Grown : Registry → Type 0 where
    made : Grown new_registry
    provided :
        (t : ℕ) (v : Value) (r r' : Registry)
        → asserts t v.dynamic ≡ true
        → Grown r
        → (provide types t (some r) v).1 ≡ some r'
        → Grown r'
    revoked : (t : ℕ) (r r' : Registry) → Grown r → (revoke t (some r)).2 ≡ some r' → Grown r'

  -- Every entry has the type of its contract.
  record IsTyped (r : Registry) : Type 0 where
    is_map : IsMap r.services
    typed : (t : ℕ) (v : Value) → find t r.services ≡ some v → asserts t v.dynamic ≡ true

  provided-IsTyped :
      (t : ℕ) (v : Value) (r r' : Registry)
      → asserts t v.dynamic ≡ true
      → IsTyped r
      → (provide types t (some r) v).1 ≡ some r'
      → IsTyped r'
  provided-IsTyped t v r r' a i = go (provide-Provided types t v (some r))
    where
      same : {o : Option Registry} → o ≡ some r → o ≡ some r' → IsTyped r'
      same p q = subst IsTyped (some-injective _ _ (sym p ∙ q)) i

      go :
          {res : Option Err} {o : Option Registry}
          → Provided types t v (some r) res o
          → o ≡ some r'
          → IsTyped r'
      go (no_registry p q s) e = cc
      go (nil_value n q s) e = same s e
      go (taken q w p n f s z) e = same z e
      go (stored q q' p p' s n f now m) e =
          subst IsTyped (some-injective _ _ (sym p' ∙ e)) (record {
            is_map = m (subst (λ (k : Registry). IsMap k.services) here i.is_map);
            typed = λ u x g. own u x (ℕ_discrete t u) (sym (now u) ∙ g);
          })
        where
          here : r ≡ q
          here = some-injective _ _ p

          own :
              (u : ℕ) (x : Value) (d : Dec (t ≡ u))
              → ite d (some v) (find u q.services) ≡ some x
              → asserts u x.dynamic ≡ true
          own u x (yes y) g =
              ap (λ (z : Value). asserts u z.dynamic) (sym (some-injective _ _ g))
              ∙ ap (λ k. asserts k v.dynamic) (sym y)
              ∙ a
          own u x (no n) g = i.typed u x (ap (λ (k : Registry). find u k.services) here ∙ g)

  revoked-IsTyped :
      (t : ℕ) (r r' : Registry) → IsTyped r → (revoke t (some r)).2 ≡ some r' → IsTyped r'
  revoked-IsTyped t r r' i e =
      let (q, e', now, m) = revoke_lem t r i.is_map in
      subst IsTyped (some-injective _ _ (sym (ap (λ p. p.2) e') ∙ e))
        (record { is_map = m; typed = λ u x g. own u x (ℕ_discrete t u) (sym (now u) ∙ g) })
    where
      own :
          (u : ℕ) (x : Value) (d : Dec (t ≡ u))
          → ite d none (find u r.services) ≡ some x
          → asserts u x.dynamic ≡ true
      own u x (yes y) g = cc
      own u x (no n) g = i.typed u x g

  Grown-IsTyped : (r : Registry) → Grown r → IsTyped r
  unfolding new_registry find
  Grown-IsTyped r made = record { is_map = tt; typed = λ t v e. cc }
  Grown-IsTyped q (provided t v r r' a g e) = provided-IsTyped t v r r' a (Grown-IsTyped r g) e
  Grown-IsTyped q (revoked t r r' g e) = revoked-IsTyped t r r' (Grown-IsTyped r g) e

  -- In a registry that `NewRegistry` made and only `Provide`, of values that have the type of their
  -- contract, and `Revoke` changed, `Require` either returns the value that is stored for the
  -- contract, which has its type, or ErrProviderNotFound, as nothing is stored for it. It never
  -- finds a value of another type.
  pub require-typed :
      (r : Registry) (t : ℕ)
      → Grown r
      → ((v : Value) × (require types t (some r) ≡ impl v)
          × (asserts t v.dynamic ≡ true)
          × (find t r.services ≡ some v))
        ⊎ ((require types t (some r) ≡ missing (wrapped (contract t) (sentinel provider_not_found)))
            × (find t r.services ≡ none))
  unfolding require
  require-typed r t g = elim (Option-cases (find t r.services)) [
    | inl f ↦ inr (rw (f, require) refl, f)
    | inr (v, f) ↦ let a = (Grown-IsTyped r g).typed t v f in inl (v, rw (f, require, a) refl, a, f)
  ]
