-- ===== src/Common/Counts.antt =====
-- Lists of names compared by how often each name occurs.
use Prim.Native.Nat.{ℕ, zero, suc, ◌+◌, ◌≤◌, ◌<◌}
use mathlib.Core.Logic.{◌⊎◌, inl, inr}
use mathlib.Core.Path.{◌≡◌, refl, sym, ap, subst}
use mathlib.Core.List.{List, [], ◌∷◌, ◌++◌, Perm}
use native.Mathlib.Omega.{arith}
use appmod.Common.Lists.{length, length-append, All}
use appmod.Common.Names.{
  Name, count, count-append, Occurs, count_split, perm_of_count, name_discrete,
}

pub All-of_Occurs {ℓ} :
    (P : Name → Type ℓ) (xs : List Name) → ((d : Name) → Occurs d xs → P d) → All P xs
All-of_Occurs P [] h = tt
All-of_Occurs P (x ∷ xs) h = (h x (ground arith), All-of_Occurs P xs (λ d o. h d (omega arith)))

pub All-Occurs {ℓ} : (P : Name → Type ℓ) (xs : List Name) (d : Name) → All P xs → Occurs d xs → P d
All-Occurs P [] d h o = absurd (omega arith)
All-Occurs P (x ∷ xs) d h o = elim (name_discrete d x) [
  | yes e ↦ subst P (sym e) h.0
  | no e ↦ All-Occurs P xs d h.1 (ground arith)
]

-- What a list has more than another.
pub rest_of_count :
    (xs ys : List Name)
    → ((d : Name) → count d xs ≤ count d ys)
    → (zs : List Name) × ((d : Name) → count d ys ≡ count d xs + count d zs)
      × (length ys ≡ length xs + length zs)
rest_of_count [] ys h = (ys, (λ d. omega arith), omega arith)
rest_of_count (x ∷ xs) ys h =
    let (l, r, q) = count_split x ys (ground (arith, h x)) in
    let (zs, c, n) =
      rest_of_count xs (l ++ r)
        λ d. omega (arith, h d, ap (count d) q, count-append d l r, count-append d l (x ∷ r)) in
    (
      zs,
      (λ d. omega (arith, c d, ap (count d) q, count-append d l r, count-append d l (x ∷ r))),
      omega (arith, n, ap length q, length-append l r, length-append l (x ∷ r)),
    )

-- A list that has nothing more often than another, and is as long, is a rearrangement of it.
pub perm_of_count_le :
    (xs ys : List Name)
    → ((d : Name) → count d xs ≤ count d ys)
    → length xs ≡ length ys
    → Perm xs ys
perm_of_count_le xs ys h e =
    let (zs, c, n) = rest_of_count xs ys h in
    perm_of_count xs ys (λ d. same d zs (c d) (omega arith))
  where
    same : {a b : ℕ} (d : Name) (zs : List Name) → b ≡ a + count d zs → length zs ≡ 0 → a ≡ b
    same d [] p q = omega arith
    same d (z ∷ zs) p q = absurd (omega arith)

pub zero_or_pos : (k : ℕ) → (k ≡ 0) ⊎ (0 < k)
zero_or_pos zero = inl refl
zero_or_pos (suc k) = inr (omega arith)
