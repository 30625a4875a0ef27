-- ===== src/Base/Options.antt =====
-- options.go: `New` with its options, against hooks that are added one behind the other.
use appmod.Common.{
  ℕ, Option, none, some, List, [], ◌∷◌, ◌++◌, Bool, true, false, map, ◌≡◌, refl, sym, ap, ◌∙◌, ◌⊎◌,
  inl, inr, Bool-cases, append_assoc, append-nil, if◌then◌else◌,
}
use mathlib.Core.Option.{some-injective}
use appmod.Phase.{Phase, before_start, after_start, before_destroy, after_destroy, unnamed, valid}
use appmod.Config.{Config}
use appmod.Base.Defs.{
  Base, Hook, created, zero_value, set_config, hooks_for, put_hooks, must_valid_phase, add_hook,
  anonymous, ◌>>=◌,
}
use appmod.Base.Hooks.{add_hook_lem, Changed, same_phase}

-- An option changes a new module, or panics.
abbrev pub ModuleOption : Type 0
ModuleOption = Base → Option Base

unfoldable pub with_config : Option Config → ModuleOption
unfolding set_config
with_config c b = some (record b { config = c })

unfoldable pub with_module_logger : Option ℕ → ModuleOption
with_module_logger l b = some (record b { logger = l })

unfoldable pub with_before_start : Option ℕ → ModuleOption
with_before_start fn b =
    some (record b { before_start_hooks = b.before_start_hooks ++ anonymous fn ∷ [] })

unfoldable pub with_after_start : Option ℕ → ModuleOption
with_after_start fn b =
    some (record b { after_start_hooks = b.after_start_hooks ++ anonymous fn ∷ [] })

unfoldable pub with_before_destroy : Option ℕ → ModuleOption
with_before_destroy fn b =
    some (record b { before_destroy_hooks = b.before_destroy_hooks ++ anonymous fn ∷ [] })

unfoldable pub with_after_destroy : Option ℕ → ModuleOption
with_after_destroy fn b =
    some (record b { after_destroy_hooks = b.after_destroy_hooks ++ anonymous fn ∷ [] })

unfoldable pub with_hook : Phase → Hook → ModuleOption
unfolding must_valid_phase hooks_for put_hooks
with_hook p h b = do _ ← must_valid_phase p; hs ← hooks_for p b; put_hooks p (hs ++ h ∷ []) b

unfoldable pub apply_options : List ModuleOption → Base → Option Base
apply_options [] b = some b
apply_options (o ∷ os) b = do b' ← o b; apply_options os b'

-- `New`.
unfoldable pub new_module : List ModuleOption → Option Base
unfolding apply_options zero_value
new_module opts = apply_options opts zero_value

-- The hooks among some options, in order.
abbrev pub hooks_in : Phase → List (Phase × Hook) → List Hook
hooks_in p [] = []
hooks_in p ((q, h) ∷ hs) = if same_phase q p then h ∷ hooks_in p hs else hooks_in p hs

abbrev pub all_valid : List (Phase × Hook) → Bool
all_valid [] = true
all_valid ((p, h) ∷ hs) = if valid p then all_valid hs else false

abbrev pub as_options : List (Phase × Hook) → List ModuleOption
as_options = map (λ e. with_hook e.0 e.1)

-- The hooks that a module was given, behind those that it had.
record Given (hs : List (Phase × Hook)) (b b' : Base) : Type 0 where
  hooks :
      (p : Phase) (old : List Hook)
      → hooks_for p b ≡ some old
      → hooks_for p b' ≡ some (old ++ hooks_in p hs)
  state_kept : b'.state ≡ b.state
  cleanups_kept : b'.cleanups ≡ b.cleanups

with_hook-add_hook : (p : Phase) (h : Hook) (b : Base) → with_hook p h b ≡ add_hook p h b
unfolding with_hook add_hook
with_hook-add_hook p h b = refl

same_phase_eq : (p q : Phase) → same_phase p q ≡ true → p ≡ q
same_phase_eq before_start before_start e = refl
same_phase_eq before_start _ e = cc
same_phase_eq after_start after_start e = refl
same_phase_eq after_start _ e = cc
same_phase_eq before_destroy before_destroy e = refl
same_phase_eq before_destroy _ e = cc
same_phase_eq after_destroy after_destroy e = refl
same_phase_eq after_destroy _ e = cc
same_phase_eq (unnamed n) q e = cc

Given-cons :
    (p : Phase) (h : Hook) (hs : List (Phase × Hook)) (b b1 b' : Base) (old : List Hook)
    → hooks_for p b ≡ some old
    → Changed p (old ++ h ∷ []) b b1
    → Given hs b1 b'
    → Given ((p, h) ∷ hs) b b'
Given-cons p h hs b b1 b' old e c g = record {
  hooks = λ q was f. elim (Bool-cases (same_phase p q)) [
    | inl k ↦
        let had : was ≡ old =
          some-injective _ _ (sym f ∙ ap (λ x. hooks_for x b) (sym (same_phase_eq p q k)) ∙ e) in
        g.hooks q (old ++ h ∷ []) (c.hooks q ∙ rw k refl)
        ∙ ap some (append_assoc old (h ∷ []) (hooks_in q hs))
        ∙ rw (k, had) refl
    | inr k ↦ g.hooks q was (c.hooks q ∙ rw k f) ∙ rw k refl
  ];
  state_kept = g.state_kept ∙ c.state_kept;
  cleanups_kept = g.cleanups_kept ∙ c.cleanups_kept;
}

-- Options that add hooks panic, or give these hooks.
abbrev Applied : List (Phase × Hook) → Base → Option Base → Type 0
Applied hs b r =
    ((all_valid hs ≡ false) × (r ≡ none))
    ⊎ ((all_valid hs ≡ true) × ((b' : Base) × (r ≡ some b') × Given hs b b'))

apply_options-Applied :
    (hs : List (Phase × Hook)) (b : Base) → Applied hs b (apply_options (as_options hs) b)
unfolding apply_options
apply_options-Applied [] b = inr (
  refl,
  (
    b,
    refl,
    record {
      hooks = λ p old e. e ∙ ap some (sym (append-nil old));
      state_kept = refl;
      cleanups_kept = refl;
    },
  ),
)
apply_options-Applied ((p, h) ∷ hs) b = elim (add_hook_lem p h b) [
  | inl (v, e) ↦
      inl (rw v refl, ap (λ o. o >>= apply_options (as_options hs)) (with_hook-add_hook p h b ∙ e))
  | inr (v, (old, b1, f, e, c)) ↦
      let step = ap (λ o. o >>= apply_options (as_options hs)) (with_hook-add_hook p h b ∙ e) in
      elim (apply_options-Applied hs b1) [
        | inl (w, k) ↦ inl (rw v w, step ∙ k)
        | inr (w, (b', k, g)) ↦ inr (rw v w, (b', step ∙ k, Given-cons p h hs b b1 b' old f c g))
      ]
]

-- `New` with `WithHook` options panics exactly if one of their phases is not one of the four. Else
-- it makes a module in the state created, without cleanups, in which each phase has the hooks
-- that were given for it, in the order of the options.
pub new_module_lem :
    (hs : List (Phase × Hook))
    → ((all_valid hs ≡ false) × (new_module (as_options hs) ≡ none))
      ⊎ ((all_valid hs ≡ true)
          × ((b : Base) × (new_module (as_options hs) ≡ some b)
              × (b.state ≡ created)
              × (b.cleanups ≡ [])
              × ((p : Phase) → valid p ≡ true → hooks_for p b ≡ some (hooks_in p hs))))
unfolding new_module zero_value hooks_for
new_module_lem hs = elim (apply_options-Applied hs zero_value) [
  | inl h ↦ inl h
  | inr (v, (b, e, g)) ↦
      inr (v, (b, e, g.state_kept, g.cleanups_kept, λ p w. g.hooks p [] (no_hooks p w)))
]
  where
    no_hooks : (p : Phase) → valid p ≡ true → hooks_for p zero_value ≡ some []
    no_hooks before_start w = refl
    no_hooks after_start w = refl
    no_hooks before_destroy w = refl
    no_hooks after_destroy w = refl
    no_hooks (unnamed n) w = cc
