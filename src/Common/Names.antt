-- ===== src/Common/Names.antt =====
-- Module names, as the bytes of a Go string: equality, the order of `slices.Sort`, occurrences.
use Prim.Native.Nat.{ℕ, ◌+◌, ◌<◌}
use Prim.Native.String.{String}
use Prim.Native.Char.{code}
use mathlib.Core.Path.{◌≡◌, refl, sym, ap, ◌∙◌, subst}
use mathlib.Core.Logic.{◌⊎◌, ◌↔◌, inl, inr, ite, ∥∥₁_elim}
use mathlib.Core.Bool.{Bool, true, false}
use mathlib.Core.List.{List, [], ◌∷◌, ◌++◌, Perm, Permᴰ, perm_middle}
use mathlib.Core.List.Perm
use native.Mathlib.Omega.{arith}
use native.Mathlib.Nat.{ℕ_set}
use native.Mathlib.Decide.{ℕ_discrete}
use appmod.Common.Tests.{ltb, if◌then◌else◌}

abbrev pub Name : Type 0
Name = List ℕ

-- The bytes of an ASCII text.
abbrev pub bytes : String → Name
bytes String.[] = []
bytes (String.◌∷◌ c s) = code c ∷ bytes s

unfoldable pub name_discrete : Discrete Name
unfolding ℕ_discrete
name_discrete [] [] = yes refl
name_discrete [] (y ∷ ys) = no (λ e. cc)
name_discrete (x ∷ xs) [] = no (λ e. cc)
name_discrete (x ∷ xs) (y ∷ ys) = elim (ℕ_discrete x y) [
  | yes p ↦ elim (name_discrete xs ys) [ yes q ↦ yes (cc) | no q ↦ no (λ e. q (cc)) ]
  | no p ↦ no (λ e. p (cc))
]

-- `==` on strings.
abbrev pub name_eqb : Name → Name → Bool
name_eqb a b = ite (name_discrete a b) true false

pub name_eqb_iff : (a b : Name) → (name_eqb a b ≡ true) ↔ (a ≡ b)
name_eqb_iff a b = ground arith

-- Byte by byte, a proper prefix first.
abbrev pub leb_name : Name → Name → Bool
leb_name [] ys = true
leb_name (x ∷ xs) [] = false
leb_name (x ∷ xs) (y ∷ ys) = if ltb x y then true else if ltb y x then false else leb_name xs ys

pub leb_name_refl : (x : Name) → leb_name x x ≡ true
leb_name_refl [] = refl
leb_name_refl (x ∷ xs) = ground (arith, leb_name_refl xs)

pub leb_name_total : (x y : Name) → (leb_name x y ≡ true) ⊎ (leb_name y x ≡ true)
leb_name_total [] y = inl refl
leb_name_total (x ∷ xs) [] = inr refl
leb_name_total (x ∷ xs) (y ∷ ys) = ground (arith, leb_name_total xs ys)

pub leb_name_trans :
    (x y z : Name) → leb_name x y ≡ true → leb_name y z ≡ true → leb_name x z ≡ true
leb_name_trans [] y z h k = refl
leb_name_trans (x ∷ xs) [] z h k = cc
leb_name_trans (x ∷ xs) (y ∷ ys) [] h k = cc
leb_name_trans (x ∷ xs) (y ∷ ys) (z ∷ zs) h k = ground (arith, leb_name_trans xs ys zs)

pub leb_name_antisymm : (x y : Name) → leb_name x y ≡ true → leb_name y x ≡ true → x ≡ y
leb_name_antisymm [] [] h k = refl
leb_name_antisymm [] (y ∷ ys) h k = cc
leb_name_antisymm (x ∷ xs) [] h k = cc
leb_name_antisymm (x ∷ xs) (y ∷ ys) h k = ground (arith, leb_name_antisymm xs ys)

-- How often a name stands in a list.
abbrev pub count : Name → List Name → ℕ
count a [] = 0
count a (x ∷ xs) = ite (name_discrete a x) 1 0 + count a xs

abbrev pub Occurs : Name → List Name → Type 0
Occurs a xs = 0 < count a xs

pub count-append : (a : Name) (xs ys : List Name) → count a (xs ++ ys) ≡ count a xs + count a ys
count-append a [] ys = omega arith
count-append a (x ∷ xs) ys = omega (arith, count-append a xs ys)

-- The entries that pass a test.
abbrev pub select {ℓ} : {A : Type ℓ} → (A → Bool) → List A → List A
select p [] = []
select p (x ∷ xs) = if p x then x ∷ select p xs else select p xs

pub count-select :
    (a : Name) (p : Name → Bool) (xs : List Name)
    → count a (select p xs) ≡ (if p a then count a xs else 0)
count-select a p [] = ground arith
count-select a p (x ∷ xs) = ground (arith, count-select a p xs)

pub count_split :
    (a : Name) (xs : List Name)
    → 0 < count a xs
    → (l : List Name) × (r : List Name) × (xs ≡ l ++ a ∷ r)
count_split a [] h = absurd (omega arith)
count_split a (x ∷ xs) h = elim (name_discrete a x) [
  | yes e ↦ ([], xs, ground arith)
  | no e ↦ let (l, r, q) = count_split a xs (ground arith) in (x ∷ l, r, ap (◌∷◌ x) q)
]

-- Lists with the same occurrences are rearrangements of one another, and the other way round.
pub perm_of_count : (xs ys : List Name) → ((a : Name) → count a xs ≡ count a ys) → Perm xs ys
perm_of_count [] [] h = Perm.nil
perm_of_count [] (y ∷ ys) h = absurd (ground (arith, h y))
perm_of_count (x ∷ xs) ys h =
    let (l, r, q) = count_split x ys (ground (arith, h x)) in
    Perm.trans
      (Perm.cons x (
        perm_of_count xs (l ++ r)
          λ a. omega (arith, h a, ap (count a) q, count-append a l r, count-append a l (x ∷ r))))
      (subst (λ zs. Perm (x ∷ l ++ r) zs) (sym q) (Perm.symm (perm_middle l r)))

count-permᴰ : (a : Name) {xs ys : List Name} → Permᴰ xs ys → count a xs ≡ count a ys
count-permᴰ a Permᴰ.nil = refl
count-permᴰ a (Permᴰ.cons e p) = ground (arith, count-permᴰ a p)
count-permᴰ a (Permᴰ.swap e f) = ground arith
count-permᴰ a (Permᴰ.trans p q) = count-permᴰ a p ∙ count-permᴰ a q

pub count-perm : (a : Name) {xs ys : List Name} → Perm xs ys → count a xs ≡ count a ys
count-perm a p = ∥∥₁_elim p (ℕ_set _ _) (count-permᴰ a)
