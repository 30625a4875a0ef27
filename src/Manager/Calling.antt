-- ===== src/Manager/Calling.antt =====
-- A method of some modules, called for one after the other: what each answers, and what they leave.
use appmod.Common.{
  count, ◌≤◌, ℕ, Name, List, [], ◌∷◌, ◌++◌, Option, none, some, true, ◌≡◌, ◌≢◌, refl, ap, ◌∙◌,
  arith, All, ◌⊎◌, inl, inr, Perm,
}
use mathlib.Core.List.Perm
use appmod.Errors.{Err, Sentinel, is_err, is_err?, any_is, join, is_err-join}
use appmod.Manager.Defs.{Node, Nodes, find_node}
use appmod.Manager.Layers.{concat}

-- What a module answered, by its name.
abbrev pub Answers : Type 0
Answers = List (Name × Option Err)

module _ {W : Type 0} (method : ℕ → W → Option Err × W) where
  -- A name that is not registered is passed over.
  abbrev pub call_node : Option Node → W → Option Err × W
  call_node none w = (none, w)
  call_node (some n) w = method n.handle w

  module _ (ns : Nodes) where
    -- The modules of these names are called, one behind the other.
    abbrev pub answers : List Name → W → Answers
    answers [] w = []
    answers (x ∷ xs) w = let r = call_node (find_node x ns) w in (x, r.0) ∷ answers xs r.1

    abbrev pub behind : List Name → W → W
    behind [] w = w
    behind (x ∷ xs) w = behind xs (call_node (find_node x ns) w).1

    pub behind-append : (xs ys : List Name) (w : W) → behind (xs ++ ys) w ≡ behind ys (behind xs w)
    behind-append [] ys w = refl
    behind-append (x ∷ xs) ys w = behind-append xs ys (call_node (find_node x ns) w).1

    pub answers-append :
        (xs ys : List Name) (w : W)
        → answers (xs ++ ys) w ≡ answers xs w ++ answers ys (behind xs w)
    answers-append [] ys w = refl
    answers-append (x ∷ xs) ys w =
        ap (◌∷◌ (x, (call_node (find_node x ns) w).0))
          (answers-append xs ys (call_node (find_node x ns) w).1)

-- The names of some layers, layer by layer, in any order within a layer.
abbrev pub InLayers : List (List Name) → List Name → Type 0
InLayers [] order = order ≡ []
InLayers (l ∷ ls) order =
    (xs : List Name) × (ys : List Name) × (order ≡ xs ++ ys) × Perm xs l × InLayers ls ys

pub InLayers-nil : (ls : List (List Name)) → concat ls ≡ [] → InLayers ls []
InLayers-nil [] e = refl
InLayers-nil ([] ∷ ls) e = ([], [], refl, Perm.nil, InLayers-nil ls e)
InLayers-nil ((x ∷ l) ∷ ls) e = cc

abbrev pub In : {A : Type 0} → A → List A → Type 0
In a [] = ⊥
In a (x ∷ xs) = (x ≡ a) ⊎ In a xs

pub In-left : {A : Type 0} (a : A) (xs ys : List A) → In a xs → In a (xs ++ ys)
In-left a [] ys i = absurd i
In-left a (x ∷ xs) ys (inl e) = inl e
In-left a (x ∷ xs) ys (inr i) = inr (In-left a xs ys i)

pub In-right : {A : Type 0} (a : A) (xs ys : List A) → In a ys → In a (xs ++ ys)
In-right a [] ys i = i
In-right a (x ∷ xs) ys i = inr (In-right a xs ys i)

-- Some of these errors answers to each sentinel that this one does.
pub In-any_is :
    (e : Err) (es : List Err) (t : Sentinel) → In e es → is_err e t ≡ true → any_is es t ≡ true
In-any_is e [] t i h = absurd i
In-any_is e (x ∷ es) t (inl p) h = ground (arith, ap (λ z. is_err z t) p)
In-any_is e (x ∷ es) t (inr i) h = ground (arith, In-any_is e es t i h)

-- An error that a module answered with is part of the error `res`.
abbrev pub Told : Option Err → Name × Option Err → Type 0
Told res (x, none) = Unit
Told res (x, some e) = (res ≢ none) × ((t : Sentinel) → is_err e t ≡ true → is_err? res t ≡ true)

-- It is one of these errors, wrapped.
abbrev pub Noted : (Name → Err → Err) → List Err → Name × Option Err → Type 0
Noted f errs (x, none) = Unit
Noted f errs (x, some e) = In (f x e) errs

pub All-Noted-mono :
    (f : Name → Err → Err) (es fs : List Err) (ans : Answers)
    → ((e : Err) → In e es → In e fs)
    → All (Noted f es) ans
    → All (Noted f fs) ans
All-Noted-mono f es fs [] k a = tt
All-Noted-mono f es fs ((x, none) ∷ ans) k (u, a) = (tt, All-Noted-mono f es fs ans k a)
All-Noted-mono f es fs ((x, some e) ∷ ans) k (i, a) = (k _ i, All-Noted-mono f es fs ans k a)

In-not_nil : (e : Err) (es : List Err) → In e es → join es ≢ none
In-not_nil e [] i = absurd i
In-not_nil e (x ∷ es) i = λ h. cc

-- What is noted is told by the errors, joined.
pub All-Told :
    (f : Name → Err → Err) (es : List Err) (ans : Answers)
    → ((x : Name) (e : Err) (t : Sentinel) → is_err (f x e) t ≡ is_err e t)
    → All (Noted f es) ans
    → All (Told (join es)) ans
All-Told f es [] w a = tt
All-Told f es ((x, none) ∷ ans) w (u, a) = (tt, All-Told f es ans w a)
All-Told f es ((x, some e) ∷ ans) w (i, a) = (
  (In-not_nil _ es i, (λ t h. is_err-join es t ∙ In-any_is (f x e) es t i (w x e t ∙ h))),
  All-Told f es ans w a,
)

-- The module answered nil.
abbrev pub Quiet : Name × Option Err → Type 0
Quiet a = a.1 ≡ none

-- The names of those that answered nil.
abbrev pub risen : Answers → List Name
risen [] = []
risen ((x, none) ∷ l) = x ∷ risen l
risen ((x, some e) ∷ l) = risen l

pub risen-append : (l k : Answers) → risen (l ++ k) ≡ risen l ++ risen k
risen-append [] k = refl
risen-append ((x, none) ∷ l) k = ap (◌∷◌ x) (risen-append l k)
risen-append ((x, some e) ∷ l) k = risen-append l k

pub Quiet-Told : (res : Option Err) (l : Answers) → All Quiet l → All (Told res) l
Quiet-Told res [] a = tt
Quiet-Told res ((x, none) ∷ l) (q, a) = (tt, Quiet-Told res l a)
Quiet-Told res ((x, some e) ∷ l) (q, a) = cc

-- What is part of an error is part of each error that includes that one.
pub Told-mono :
    (r r' : Option Err) (l : Answers)
    → r' ≢ none
    → ((t : Sentinel) → is_err? r t ≡ true → is_err? r' t ≡ true)
    → All (Told r) l
    → All (Told r') l
Told-mono r r' [] n f a = tt
Told-mono r r' ((x, none) ∷ l) n f (u, a) = (tt, Told-mono r r' l n f a)
Told-mono r r' ((x, some e) ∷ l) n f ((m, g), a) =
    ((n, (λ t h. f t (g t h))), Told-mono r r' l n f a)

module _ {W : Type 0} (method : ℕ → W → Option Err × W) (ns : Nodes) where
  -- If all answered nil, these are all that were called.
  pub risen-Quiet :
      (xs : List Name) (w : W)
      → All Quiet (answers method ns xs w)
      → risen (answers method ns xs w) ≡ xs
  risen-Quiet [] w a = refl
  risen-Quiet (x ∷ xs) w a = go (call_node method (find_node x ns) w) a (λ w'. risen-Quiet xs w')
    where
      go :
          (r : Option Err × W)
          → Quiet (x, r.0) × All Quiet (answers method ns xs r.1)
          → ((w' : W) → All Quiet (answers method ns xs w') → risen (answers method ns xs w') ≡ xs)
          → risen ((x, r.0) ∷ answers method ns xs r.1) ≡ x ∷ xs
      go (none, w') (q, b) ih = ap (◌∷◌ x) (ih w' b)
      go (some e, w') (q, b) ih = cc

  pub count-risen :
      (xs : List Name) (w : W) (d : Name) → count d (risen (answers method ns xs w)) ≤ count d xs
  count-risen [] w d = omega arith
  count-risen (x ∷ xs) w d = go (call_node method (find_node x ns) w) (λ w'. count-risen xs w' d)
    where
      go :
          (r : Option Err × W)
          → ((w' : W) → count d (risen (answers method ns xs w')) ≤ count d xs)
          → count d (risen ((x, r.0) ∷ answers method ns xs r.1)) ≤ count d (x ∷ xs)
      go (none, w') ih = ground (arith, ih w')
      go (some e, w') ih = ground (arith, ih w')
