-- ===== src/Base/Growing.antt =====
-- What an effect makes of the cleanups of its module: `AddCleanup` appends, nothing else does.
use appmod.Common.{
  ℕ, none, some, List, [], ◌∷◌, ◌++◌, ◌≡◌, refl, sym, ap, ◌∙◌, append_assoc, append-nil,
}
use appmod.Phase.{before_start, after_start, before_destroy, after_destroy, unnamed}
use appmod.Base.Defs.{Base, add_hook, remove_hook}
use appmod.Base.Environment.{
  Effect, adds_cleanup, sets_config, sets_logger, sets_app_context, adds_hook, removes_hook, apply,
  apply_all,
}
use native.Mathlib.Omega.{arith}

-- The cleanups that these effects register: a nil one is passed over.
abbrev registers_one : Effect → List ℕ
registers_one (adds_cleanup (some fn)) = fn ∷ []
registers_one (adds_cleanup none) = []
registers_one (sets_config c) = []
registers_one (sets_logger l) = []
registers_one (sets_app_context c) = []
registers_one (adds_hook p h) = []
registers_one (removes_hook p n) = []

abbrev pub registers : List Effect → List ℕ
registers [] = []
registers (e ∷ es) = registers_one e ++ registers es

same : {old new : List ℕ} → new ≡ old → new ≡ old ++ []
same e = e ∙ sym (append-nil _)

apply-cleanups : (e : Effect) (b : Base) → (apply e b).cleanups ≡ b.cleanups ++ registers_one e
unfolding apply add_hook remove_hook
apply-cleanups (adds_cleanup none) b = same refl
apply-cleanups (adds_cleanup (some fn)) b = refl
apply-cleanups (sets_config c) b = same refl
apply-cleanups (sets_logger l) b = same refl
apply-cleanups (sets_app_context c) b = same refl
apply-cleanups (adds_hook before_start h) b = same refl
apply-cleanups (adds_hook after_start h) b = same refl
apply-cleanups (adds_hook before_destroy h) b = same refl
apply-cleanups (adds_hook after_destroy h) b = same refl
apply-cleanups (adds_hook (unnamed n) h) b = same refl
apply-cleanups (removes_hook before_start n) b = same (ground arith)
apply-cleanups (removes_hook after_start n) b = same (ground arith)
apply-cleanups (removes_hook before_destroy n) b = same (ground arith)
apply-cleanups (removes_hook after_destroy n) b = same (ground arith)
apply-cleanups (removes_hook (unnamed n) m) b = same refl

pub apply_all-cleanups :
    (es : List Effect) (b : Base) → (apply_all es b).cleanups ≡ b.cleanups ++ registers es
unfolding apply_all
apply_all-cleanups [] b = same refl
apply_all-cleanups (e ∷ es) b =
    apply_all-cleanups es (apply e b)
    ∙ ap (λ l. l ++ registers es) (apply-cleanups e b)
    ∙ append_assoc b.cleanups (registers_one e) (registers es)
