-- ===== src/Manager/RunLaws.antt =====
-- What `Run` says of a teardown that ran out of time.
use appmod.Common.{
  Name, List, [], ◌∷◌, Option, none, some, Bool, true, false, ◌≡◌, refl, ◌⊎◌, inl, inr, ◌≢◌,
}
use appmod.Errors.{
  Err, Sentinel, wrapped, modules_still_running, shutdown_timeout, is_err, is_err?, is_err-wrapped,
}
use appmod.Manager.Running.{annotate, describe_timeout}

-- The error that names modules: it wraps the other.
abbrev pub naming : Option Err → List Name → Option Err
naming none names = none
naming (some e) names = some (wrapped (modules_still_running names) e)

is_err-annotate :
    (b : Bool) (e : Err) (names : List Name) (t : Sentinel)
    → is_err (annotate b e names) t ≡ is_err e t
is_err-annotate false e names t = refl
is_err-annotate true e [] t = refl
is_err-annotate true e (x ∷ xs) t = is_err-wrapped (modules_still_running (x ∷ xs)) e t

-- By `errors.Is`, `describeTimeout` returns the error that it is given. It adds the names of the
-- modules that are still started exactly if the error is ErrShutdownTimeout and there are some.
pub describe_timeout_lem :
    (err : Option Err) (started : List Name)
    → ((t : Sentinel) → is_err? (describe_timeout err started) t ≡ is_err? err t)
      × (((is_err? err shutdown_timeout ≡ true)
            × (started ≢ [])
            × (describe_timeout err started ≡ naming err started))
          ⊎ (((is_err? err shutdown_timeout ≡ false) ⊎ (started ≡ []))
              × (describe_timeout err started ≡ err)))
unfolding describe_timeout
describe_timeout_lem none started = ((λ t. refl), inr (inl refl, refl))
describe_timeout_lem (some e) started =
    (is_err-annotate (is_err e shutdown_timeout) e started, go (is_err e shutdown_timeout) started)
  where
    go :
        (b : Bool) (names : List Name)
        → ((b ≡ true)
            × (names ≢ [])
            × (some (annotate b e names) ≡ some (wrapped (modules_still_running names) e)))
          ⊎ (((b ≡ false) ⊎ (names ≡ [])) × (some (annotate b e names) ≡ some e))
    go false names = inr (inl refl, refl)
    go true [] = inr (inr refl, refl)
    go true (x ∷ xs) = inl (refl, (λ h. cc), refl)
