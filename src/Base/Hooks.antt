-- ===== src/Base/Hooks.antt =====
-- Hooks: the order in which a phase runs them, their registration and removal.
use appmod.Common.{
  ◌≤◌, Name, name_eqb, name_eqb_iff, none, some, List, [], ◌∷◌, ◌++◌, ◌≡◌, refl, ◌⊎◌, inl, inr, ◌≢◌,
  Bool, true, false, not, ◌&&◌, ◌||◌, arith, Perm, select, length, ℤ, leb_ℤ, leb_ℤ_total,
  leb_ℤ_trans, if◌then◌else◌, ◌==◌, Bool-cases,
}
use appmod.Common.Sort.{sort_by-perm, sort_by-IsSorted, select-sort_by, IsSorted}
use appmod.Phase.{Phase, before_start, after_start, before_destroy, after_destroy, unnamed, valid}
use appmod.Base.Defs.{Base, Hook, add_hook, remove_hook, hooks_for, put_hooks}
use appmod.Base.Lifecycle.{order_hooks}

abbrev pub le_priority : Hook → Hook → Bool
le_priority a b = leb_ℤ a.priority b.priority

-- A test for one priority.
abbrev pub has_priority : ℤ → Hook → Bool
has_priority p h = leb_ℤ h.priority p && leb_ℤ p h.priority

-- `orderHooks` returns the given hooks in ascending priority, and the hooks of each priority in
-- the order in which they were given.
pub order_hooks_lem :
    (hs : List Hook)
    → Perm (order_hooks hs) hs
      × IsSorted le_priority (order_hooks hs)
      × ((p : ℤ) → select (has_priority p) (order_hooks hs) ≡ select (has_priority p) hs)
unfolding order_hooks
order_hooks_lem hs = (
  sort_by-perm le_priority hs,
  sort_by-IsSorted le_priority (λ a b. leb_ℤ_total a.priority b.priority)
      (λ a b c. leb_ℤ_trans a.priority b.priority c.priority) hs,
  λ p.
      select-sort_by le_priority (has_priority p)
        (λ a b h k. ground (arith, leb_ℤ_trans a.priority p b.priority)) hs,
)

abbrev pub same_phase : Phase → Phase → Bool
same_phase before_start before_start = true
same_phase after_start after_start = true
same_phase before_destroy before_destroy = true
same_phase after_destroy after_destroy = true
same_phase _ _ = false

-- One phase has new hooks; the others, the cleanups and the state are as they were.
pub record Changed (p : Phase) (hs : List Hook) (b b' : Base) : Type 0 where
  pub hooks : (q : Phase) → hooks_for q b' ≡ (if same_phase p q then some hs else hooks_for q b)
  pub cleanups_kept : b'.cleanups ≡ b.cleanups
  pub state_kept : b'.state ≡ b.state

put_hooks-hooks :
    (p q : Phase) (hs : List Hook) (b b' : Base)
    → put_hooks p hs b ≡ some b'
    → hooks_for q b' ≡ (if same_phase p q then some hs else hooks_for q b)
unfolding put_hooks hooks_for
put_hooks-hooks before_start before_start hs b b' e = ground arith
put_hooks-hooks before_start _ hs b b' e = ground arith
put_hooks-hooks after_start before_start hs b b' e = ground arith
put_hooks-hooks after_start _ hs b b' e = ground arith
put_hooks-hooks before_destroy before_start hs b b' e = ground arith
put_hooks-hooks before_destroy _ hs b b' e = ground arith
put_hooks-hooks after_destroy before_start hs b b' e = ground arith
put_hooks-hooks after_destroy _ hs b b' e = ground arith
put_hooks-hooks (unnamed n) q hs b b' e = cc

put_hooks-Changed :
    (p : Phase) (hs : List Hook) (b : Base)
    → valid p ≡ true
    → (b' : Base) × (put_hooks p hs b ≡ some b') × Changed p hs b b'
unfolding put_hooks
put_hooks-Changed before_start hs b v = (
  _,
  refl,
  record {
    hooks = λ q. put_hooks-hooks before_start q hs b _ refl;
    cleanups_kept = refl;
    state_kept = refl;
  },
)
put_hooks-Changed after_start hs b v = (
  _,
  refl,
  record {
    hooks = λ q. put_hooks-hooks after_start q hs b _ refl;
    cleanups_kept = refl;
    state_kept = refl;
  },
)
put_hooks-Changed before_destroy hs b v = (
  _,
  refl,
  record {
    hooks = λ q. put_hooks-hooks before_destroy q hs b _ refl;
    cleanups_kept = refl;
    state_kept = refl;
  },
)
put_hooks-Changed after_destroy hs b v = (
  _,
  refl,
  record {
    hooks = λ q. put_hooks-hooks after_destroy q hs b _ refl;
    cleanups_kept = refl;
    state_kept = refl;
  },
)
put_hooks-Changed (unnamed n) hs b v = cc

hooks_for_total :
    (p : Phase) (b : Base) → valid p ≡ true → (hs : List Hook) × (hooks_for p b ≡ some hs)
unfolding hooks_for
hooks_for_total before_start b v = (_, refl)
hooks_for_total after_start b v = (_, refl)
hooks_for_total before_destroy b v = (_, refl)
hooks_for_total after_destroy b v = (_, refl)
hooks_for_total (unnamed n) b v = cc

-- `AddHook` panics exactly for a phase that is not one of the four, and otherwise puts the hook
-- behind those of its phase and changes no other phase, no cleanup and not the state.
pub add_hook_lem :
    (p : Phase) (h : Hook) (b : Base)
    → ((valid p ≡ false) × (add_hook p h b ≡ none))
      ⊎ ((valid p ≡ true)
          × ((hs : List Hook) × (b' : Base) × (hooks_for p b ≡ some hs)
              × (add_hook p h b ≡ some b')
              × Changed p (hs ++ h ∷ []) b b'))
unfolding add_hook
add_hook_lem p h b = elim (Bool-cases (valid p)) [
  | inr v ↦ inl (v, rw (v, add_hook))
  | inl v ↦
      let (hs, e) = hooks_for_total p b v in
      let (b', f, c) = put_hooks-Changed p (hs ++ h ∷ []) b v in
      inr (v, (hs, b', e, rw (v, add_hook, e, f), c))
]

abbrev pub any_named : Name → List Hook → Bool
any_named n [] = false
any_named n (h ∷ hs) = name_eqb h.name n || any_named n hs

abbrev pub unnamed_by : Name → Hook → Bool
unnamed_by n h = not (name_eqb h.name n)

select-le : (n : Name) (hs : List Hook) → length (select (unnamed_by n) hs) ≤ length hs
select-le n [] = omega arith
select-le n (h ∷ hs) = ground (arith, select-le n hs)

length-select :
    (n : Name) (hs : List Hook)
    → not (length (select (unnamed_by n) hs) == length hs) ≡ any_named n hs
length-select n [] = refl
length-select n (h ∷ hs) = ground (arith, select-le n hs, length-select n hs)

-- `RemoveHook` panics exactly for a phase that is not one of the four. Otherwise it removes every
-- hook of the phase that has the name, keeps the order of the others and every other phase, and
-- reports whether there was one; for the empty name it removes nothing.
pub remove_hook_lem :
    (p : Phase) (n : Name) (b : Base)
    → ((valid p ≡ false) × (remove_hook p n b ≡ none))
      ⊎ ((valid p ≡ true) × (n ≡ []) × (remove_hook p n b ≡ some (b, false)))
      ⊎ ((valid p ≡ true)
          × (n ≢ [])
          × ((hs : List Hook) × (b' : Base) × (hooks_for p b ≡ some hs)
              × (remove_hook p n b ≡ some (b', any_named n hs))
              × Changed p (select (unnamed_by n) hs) b b'))
unfolding remove_hook
remove_hook_lem p n b = elim (Bool-cases (valid p)) [
  | inr v ↦ inl (v, rw (v, remove_hook))
  | inl v ↦ elim (Bool-cases (name_eqb n [])) [
    | inl e ↦ inr (inl (v, (name_eqb_iff n []).0 e, ground arith))
    | inr e ↦
        let (hs, f) = hooks_for_total p b v in
        let (b', g, c) = put_hooks-Changed p (select (unnamed_by n) hs) b v in
        inr (inr (v, (λ x. ground arith), (hs, b', f, ground (arith, length-select n hs), c)))
  ]
]
