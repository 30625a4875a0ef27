-- ===== src/Errors.antt =====
-- errors.go, the HookError of hook.go, and what the code uses of Go's errors package.
use appmod.Common.{
  ℕ, Name, Bool, true, false, ◌||◌, List, [], ◌∷◌, Option, none, some, ite, ◌≡◌, refl, ap,
}
use appmod.Phase.{Phase}

-- The error values that are told apart by identity: the package's own, those of adapters/hubmod,
-- and the two of the context package.
pub data Sentinel : Type 0 where
  already_initialized not_initialized : Sentinel
  empty_name nil_module duplicate_module unknown_dependency dependency_cycle : Sentinel
  already_run shutdown_timeout already_started : Sentinel
  nil_registry duplicate_provider nil_implementation provider_not_found : Sentinel
  nil_hub hub_nil_module no_app_context : Sentinel
  canceled deadline_exceeded : Sentinel

-- The messages that `fmt.Errorf` puts around a wrapped error, with their arguments.
pub data Note : Type 0 where
  module_named : Name → Note
  depends_on : (name dep : Name) → Note
  modules_still_started : ℕ → Note
  module_failed_to_start module_failed_to_stop module_unhealthy : Name → Note
  cleanup_failed : (name : Name) (index : ℕ) → Note
  teardown_aborted : Note
  modules_still_running : List Name → Note
  contract : ℕ → Note
  contract_registered_as : (wanted found : ℕ) → Note

-- Where a panic was recovered.
pub data Recovered : Type 0 where
  hook_panicked cleanup_panicked : Recovered

-- A Go error value. `foreign` is an error of code outside the repository.
mutual
  pub data Err : Type 0 where
    sentinel : Sentinel → Err
    foreign : ℕ → Err
    panicked : Recovered → ℕ → Err
    wrapped : Note → Err → Err
    hook_error : (phase : Phase) (index : ℕ) (name owner : Name) → Err → Err
    joined : Errs → Err

  pub data Errs : Type 0 where
    nil : Errs
    cons : Err → Errs → Errs

abbrev pub errs_of : List Err → Errs
errs_of [] = nil
errs_of (e ∷ es) = cons e (errs_of es)

-- `errors.Join` of errors that are not nil: nil for none of them.
abbrev pub join : List Err → Option Err
join [] = none
join (e ∷ es) = some (joined (errs_of (e ∷ es)))

pub Sentinel-discrete : Discrete Sentinel
Sentinel-discrete = hlevel

abbrev sentinel_eqb : Sentinel → Sentinel → Bool
unfolding Sentinel-discrete
sentinel_eqb a b = ite (Sentinel-discrete a b) true false

-- One error value against the target. The timeout of go-shutdown wraps `DeadlineExceeded`.
sentinel_is : Sentinel → Sentinel → Bool
unfolding Sentinel-discrete
sentinel_is shutdown_timeout t = sentinel_eqb shutdown_timeout t || sentinel_eqb deadline_exceeded t
sentinel_is s t = sentinel_eqb s t

-- `errors.Is`: the error, what it wraps, and each error that it joins.
unfoldable mutual
  unfolding sentinel_is

  pub is_err : Err → Sentinel → Bool
  is_err (sentinel s) t = sentinel_is s t
  is_err (foreign n) t = false
  is_err (panicked r v) t = false
  is_err (wrapped n e) t = is_err e t
  is_err (hook_error p i n o e) t = is_err e t
  is_err (joined es) t = is_any es t

  pub is_any : Errs → Sentinel → Bool
  is_any nil t = false
  is_any (cons e es) t = is_err e t || is_any es t

-- `errors.Is` of what `errors.Join` returned, which is false of nil.
abbrev pub is_err? : Option Err → Sentinel → Bool
is_err? none t = false
is_err? (some e) t = is_err e t

abbrev pub any_is : List Err → Sentinel → Bool
any_is [] t = false
any_is (e ∷ es) t = is_err e t || any_is es t

is_any-errs_of : (es : List Err) (t : Sentinel) → is_any (errs_of es) t ≡ any_is es t
unfolding is_any
is_any-errs_of [] t = refl
is_any-errs_of (e ∷ es) t = ap (λ b. is_err e t || b) (is_any-errs_of es t)

-- By `errors.Is`, a joined error is each of the errors that were joined, and nothing else.
pub is_err-join : (es : List Err) (t : Sentinel) → is_err? (join es) t ≡ any_is es t
unfolding is_err
is_err-join [] t = refl
is_err-join (e ∷ es) t = is_any-errs_of (e ∷ es) t

pub is_err-wrapped : (n : Note) (e : Err) (t : Sentinel) → is_err (wrapped n e) t ≡ is_err e t
unfolding is_err
is_err-wrapped n e t = refl

is_err_runs :
    is_err
      (joined (errs_of (foreign 1 ∷ wrapped teardown_aborted (sentinel shutdown_timeout) ∷ [])))
      deadline_exceeded
    ≡ true
unfolding is_err
is_err_runs = refl
