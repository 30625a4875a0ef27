-- ===== src/Hub/Shutdown.antt =====
-- `shutdown`: the hub is closed whether or not it could be drained.
use appmod.Common.{ℕ, Option, none, some, [], ◌∷◌, ◌++◌, ◌≡◌, refl, ◌∙◌, arith, ◌||◌}
use appmod.Errors.{Err, Sentinel, is_err?, join, is_err-join}
use appmod.Base.Environment.{Ctx}
use appmod.Registry.{Types}
use appmod.Hub.{Bus, Settings, shutdown, drain_if, as_list}

module _ (types : Types) (contract : ℕ) (bus : Bus) where
  open bus use {env, close}

  -- `shutdown` closes the hub behind the drain, if there is one, also if that failed, and by
  -- `errors.Is` its error is that of the drain and that of the close, and nothing else.
  pub shutdown_lem :
      (s : Settings) (ctx : Ctx) (w : env.World) (t : Sentinel)
      → let (d, w1) = drain_if types contract bus s.drains ctx w in
        let v = shutdown types contract bus s ctx w in
        (v.1 ≡ (close ctx w1).1) × (is_err? v.0 t ≡ (is_err? d t || is_err? (close ctx w1).0 t))
  unfolding shutdown
  shutdown_lem s ctx w t =
      let (d, w1) = drain_if types contract bus s.drains ctx w in (refl, go d (close ctx w1).0)
    where
      go :
          (d c : Option Err)
          → is_err? (join (as_list types contract bus d ++ as_list types contract bus c)) t
            ≡ (is_err? d t || is_err? c t)
      go none none = refl
      go none (some e) = is_err-join (e ∷ []) t ∙ ground arith
      go (some e) none = is_err-join (e ∷ []) t ∙ ground arith
      go (some e) (some f) = is_err-join (e ∷ f ∷ []) t ∙ ground arith
