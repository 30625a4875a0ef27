-- ===== src/Common/Sort.antt =====
-- `slices.Sort` and `slices.SortStableFunc`: a stable sort by a total order given as a test.
use mathlib.Core.List.Perm
use appmod.Common.Tests.{if◌then◌else◌, Bool-cases}
use appmod.Common.Names.{
  Name, leb_name, leb_name_total, leb_name_trans, leb_name_antisymm, count, count-perm, select,
  name_discrete,
}
use appmod.Common.Lists.{All, All-map}
use Prim.Native.Nat.{◌<◌}
use mathlib.Core.Path.{◌≡◌, refl, ap, ◌∙◌, ap₂}
use mathlib.Core.Logic.{◌⊎◌, inl, inr}
use mathlib.Core.Bool.{Bool, true, false}
use mathlib.Core.List.{List, [], ◌∷◌, Perm}
use native.Mathlib.Omega.{arith}

module _ {ℓ} {A : Type ℓ} (le : A → A → Bool) where
  -- In front of the first entry that is not smaller.
  unfoldable pub insert_by : A → List A → List A
  insert_by x [] = x ∷ []
  insert_by x (y ∷ ys) = if le x y then x ∷ y ∷ ys else y ∷ insert_by x ys

  unfoldable pub sort_by : List A → List A
  unfolding insert_by
  sort_by [] = []
  sort_by (x ∷ xs) = insert_by x (sort_by xs)

  insert_by-perm : (x : A) (xs : List A) → Perm (insert_by x xs) (x ∷ xs)
  unfolding insert_by
  insert_by-perm x [] = Perm.rfl
  insert_by-perm x (y ∷ ys) =
      let moved = Perm.trans (Perm.cons y (insert_by-perm x ys)) (Perm.swap x y ys) in
      elim (Bool-cases (le x y)) [ inl e ↦ rw e Perm.rfl | inr e ↦ rw e moved ]

  pub sort_by-perm : (xs : List A) → Perm (sort_by xs) xs
  unfolding sort_by
  sort_by-perm [] = Perm.rfl
  sort_by-perm (x ∷ xs) = Perm.trans (insert_by-perm x (sort_by xs)) (Perm.cons x (sort_by-perm xs))

  -- Every entry is at most each entry behind it.
  abbrev pub IsSorted : List A → Type ℓ
  IsSorted [] = Unit
  IsSorted (x ∷ xs) = All (λ y. le x y ≡ true) xs × IsSorted xs

  module _ (total : (x y : A) → (le x y ≡ true) ⊎ (le y x ≡ true))
      (trans : (x y z : A) → le x y ≡ true → le y z ≡ true → le x z ≡ true) where
    insert_by-All :
        (x y : A) (ys : List A)
        → le y x ≡ true
        → All (λ z. le y z ≡ true) ys
        → All (λ z. le y z ≡ true) (insert_by x ys)
    unfolding insert_by
    insert_by-All x y [] h a = (h, tt)
    insert_by-All x y (z ∷ zs) h a = elim (Bool-cases (le x z)) [
      | inl e ↦ rw e (h, a)
      | inr e ↦ rw e (a.0, insert_by-All x y zs h a.1)
    ]

    insert_by-IsSorted : (x : A) (ys : List A) → IsSorted ys → IsSorted (insert_by x ys)
    unfolding insert_by
    insert_by-IsSorted x [] s = (tt, tt)
    insert_by-IsSorted x (y ∷ ys) s = elim (Bool-cases (le x y)) [
      | inl e ↦ rw e ((e, All-map (λ z. trans x y z e) ys s.0), s)
      | inr e ↦ rw e (insert_by-All x y ys (flip e) s.0, insert_by-IsSorted x ys s.1)
    ]
      where
        flip : le x y ≡ false → le y x ≡ true
        flip e = elim (total x y) [ inl h ↦ cc | inr h ↦ h ]

    pub sort_by-IsSorted : (xs : List A) → IsSorted (sort_by xs)
    unfolding sort_by
    sort_by-IsSorted [] = tt
    sort_by-IsSorted (x ∷ xs) = insert_by-IsSorted x (sort_by xs) (sort_by-IsSorted xs)

  -- Stability: entries of one class, whose members are at most each other, keep their order.
  module _ (class : A → Bool)
      (same : (x y : A) → class x ≡ true → class y ≡ true → le x y ≡ true) where
    select-insert_by : (x : A) (ys : List A) → select class (insert_by x ys) ≡ select class (x ∷ ys)
    unfolding insert_by
    select-insert_by x [] = refl
    select-insert_by x (y ∷ ys) = ground (arith, select-insert_by x ys, same x y)

    pub select-sort_by : (xs : List A) → select class (sort_by xs) ≡ select class xs
    unfolding sort_by
    select-sort_by [] = refl
    select-sort_by (x ∷ xs) =
        select-insert_by x (sort_by xs)
        ∙ ap (λ zs. if class x then x ∷ zs else zs) (select-sort_by xs)

-- The names of a list, in the order of `slices.Sort`.
unfoldable pub sort_names : List Name → List Name
unfolding sort_by
sort_names = sort_by leb_name

pub count-sort_names : (a : Name) (xs : List Name) → count a (sort_names xs) ≡ count a xs
unfolding sort_names
count-sort_names a xs = count-perm a (sort_by-perm leb_name xs)

pub sort_names-IsSorted : (xs : List Name) → IsSorted leb_name (sort_names xs)
unfolding sort_names
sort_names-IsSorted = sort_by-IsSorted leb_name leb_name_total leb_name_trans

le_of_count :
    (x a : Name) (xs : List Name)
    → All (λ y. leb_name x y ≡ true) xs
    → 0 < count a xs
    → leb_name x a ≡ true
le_of_count x a [] h p = absurd (omega arith)
le_of_count x a (y ∷ ys) h p = ground (arith, le_of_count x a ys)

-- A sorted list is determined by its occurrences.
pub sorted_ext :
    (xs ys : List Name)
    → IsSorted leb_name xs
    → IsSorted leb_name ys
    → ((a : Name) → count a xs ≡ count a ys)
    → xs ≡ ys
sorted_ext [] [] s t h = refl
sorted_ext [] (y ∷ ys) s t h = absurd (ground (arith, h y))
sorted_ext (x ∷ xs) [] s t h = absurd (ground (arith, h x))
sorted_ext (x ∷ xs) (y ∷ ys) s t h =
    ap₂ (λ a l. a ∷ l) heads (sorted_ext xs ys s.1 t.1 (λ a. ground (arith, h a, heads)))
  where
    heads : x ≡ y
    heads = elim (name_discrete x y) [
      | yes e ↦ e
      | no e ↦
          leb_name_antisymm x y (le_of_count x y xs s.0 (ground (arith, h y)))
            (le_of_count y x ys t.0 (ground (arith, h x)))
    ]
