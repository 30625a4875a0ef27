-- ===== src/Common/Turns.antt =====
-- Callers that take turns, where the state of an object tells whether one of them is inside.
use Prim.Native.Nat.{ℕ}
use mathlib.Core.Path.{◌≡◌, sym, ap, ◌∙◌, subst}
use mathlib.Core.Logic.{◌⊎◌, inl, inr, ite}
use mathlib.Core.Bool.{Bool, true, false}
use mathlib.Core.Option.{Option, none, some, some-injective}
use native.Mathlib.Omega.{arith}
use native.Mathlib.Decide.{ℕ_discrete}

abbrev pub move_to {ℓ} : {P : Type ℓ} → ℕ → P → (ℕ → P) → ℕ → P
move_to i p f j = ite (ℕ_discrete j i) p (f j)

-- `state_inside` is the state of the object while a caller is at a position, none where the caller
-- is not inside; `is_taken` tells whether the object is in such a state.
module _ {S P : Type 0} (state_inside : P → Option S) (is_taken : S → Bool)
    (taken : (p : P) (e : S) → state_inside p ≡ some e → is_taken e ≡ true) where
  -- Who is inside.
  pub record IsExclusive (state : S) (position : ℕ → P) : Type 0 where
    pub held : (i : ℕ) (e : S) → state_inside (position i) ≡ some e → state ≡ e
    pub alone :
        (i j : ℕ) (e e' : S)
        → state_inside (position i) ≡ some e
        → state_inside (position j) ≡ some e'
        → i ≡ j
    pub owned : is_taken state ≡ true → (i : ℕ) × (state_inside (position i) ≡ some state)

  -- What a move is to the others: nothing, an entry into a free object, a move inside, a new state of a
  -- free object, or an exit.
  pub data Kind (s : S) (p : P) (s' : S) (p' : P) : Type 0 where
    passes : state_inside p ≡ none → state_inside p' ≡ none → s' ≡ s → Kind s p s' p'
    enters : is_taken s ≡ false → state_inside p' ≡ some s' → Kind s p s' p'
    stays : (e : S) → state_inside p ≡ some e → (s ≡ e → state_inside p' ≡ some s') → Kind s p s' p'
    resets :
        state_inside p ≡ none
        → state_inside p' ≡ none
        → is_taken s ≡ false
        → is_taken s' ≡ false
        → Kind s p s' p'
    exits :
        (e : S)
        → state_inside p ≡ some e
        → state_inside p' ≡ none
        → is_taken s' ≡ false
        → Kind s p s' p'

  here : (i : ℕ) (p : P) (f : ℕ → P) → move_to i p f i ≡ p
  here i p f = ground arith

  there : (i j : ℕ) (p : P) (f : ℕ → P) → ¬ (j ≡ i) → move_to i p f j ≡ f j
  there i j p f d = ground arith

  -- Someone was inside already, unless it is the one that moved.
  split :
      (i j : ℕ) (p : P) (f : ℕ → P)
      → ((j ≡ i) × (move_to i p f j ≡ p)) ⊎ ((¬ (j ≡ i)) × (move_to i p f j ≡ f j))
  split i j p f = elim (ℕ_discrete j i) [
    | yes e ↦ inl (e, ap (move_to i p f) e ∙ here i p f)
    | no d ↦ inr (d, there i j p f d)
  ]

  -- Only the caller `i` is inside now, if any.
  lone :
      (i : ℕ) (p : P) (f : ℕ → P) (s' : S)
      → ((j : ℕ) (e : S) → ¬ (j ≡ i) → ¬ (state_inside (f j) ≡ some e))
      → (state_inside p ≡ some s') ⊎ ((state_inside p ≡ none) × (is_taken s' ≡ false))
      → IsExclusive s' (move_to i p f)
  lone i p f s' others c = record {
    held = λ j e q. elim (split i j p f) [
      | inl (d, r) ↦ elim c [
        | inl k ↦ some-injective _ _ (sym k ∙ ap state_inside (sym r) ∙ q)
        | inr k ↦ cc (k.0, r, q)
      ]
      | inr (d, r) ↦ absurd (others j e d (ap state_inside (sym r) ∙ q))
    ];
    alone = λ j k e e' q q'. elim (split i j p f) [
      | inr (d, r) ↦ absurd (others j e d (ap state_inside (sym r) ∙ q))
      | inl (d, r) ↦ elim (split i k p f) [
        | inr (d', r') ↦ absurd (others k e' d' (ap state_inside (sym r') ∙ q'))
        | inl (d', r') ↦ d ∙ sym d'
      ]
    ];
    owned = λ t. elim c [ inl k ↦ (i, ap state_inside (here i p f) ∙ k) | inr k ↦ cc (k.1, t) ];
  }

  -- A move of a caller who is not inside, before and behind it.
  passes-IsExclusive :
      (s : S) (f : ℕ → P) (i : ℕ) (p : P)
      → state_inside (f i) ≡ none
      → state_inside p ≡ none
      → IsExclusive s f
      → IsExclusive s (move_to i p f)
  passes-IsExclusive s f i p a b v = record {
    held = λ j e q. v.held j e (same j ∙ q);
    alone = λ j k e e' q q'. v.alone j k e e' (same j ∙ q) (same k ∙ q');
    owned = λ t. let (j, q) = v.owned t in (j, sym (same j) ∙ q);
  }
    where
      same : (j : ℕ) → state_inside (f j) ≡ state_inside (move_to i p f j)
      same j = elim (split i j p f) [
        | inl (d, r) ↦ ap (λ k. state_inside (f k)) d ∙ a ∙ sym b ∙ ap state_inside (sym r)
        | inr (d, r) ↦ ap state_inside (sym r)
      ]

  -- Nobody is inside a free object.
  nobody :
      (s : S) (f : ℕ → P)
      → is_taken s ≡ false
      → IsExclusive s f
      → (j : ℕ) (e : S) → ¬ (state_inside (f j) ≡ some e)
  nobody s f t v j e q = cc (taken (f j) e q, t, ap is_taken (v.held j e q))

  pub Kind-IsExclusive :
      (s : S) (f : ℕ → P) (i : ℕ) (s' : S) (p : P)
      → Kind s (f i) s' p
      → IsExclusive s f
      → IsExclusive s' (move_to i p f)
  Kind-IsExclusive s f i s' p (passes a b e) v =
      subst (λ t. IsExclusive t (move_to i p f)) (sym e) (passes-IsExclusive s f i p a b v)
  Kind-IsExclusive s f i s' p (enters t b) v = lone i p f s' (λ j e d. nobody s f t v j e) (inl b)
  Kind-IsExclusive s f i s' p (resets a b t t') v =
      lone i p f s' (λ j e d. nobody s f t v j e) (inr (b, t'))
  Kind-IsExclusive s f i s' p (stays e a b) v =
      lone i p f s' (λ j e' d q. d (v.alone j i e' e q a)) (inl (b (v.held i e a)))
  Kind-IsExclusive s f i s' p (exits e a b t) v =
      lone i p f s' (λ j e' d q. d (v.alone j i e' e q a)) (inr (b, t))
