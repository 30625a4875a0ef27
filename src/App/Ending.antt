-- ===== src/App/Ending.antt =====
-- Where the turns of one goroutine of a layer lead: to the end of its `Init`.
use appmod.Common.{
  ℕ, suc, Name, [], ◌∷◌, Option, none, some, ◌≡◌, refl, sym, ap, ◌∙◌, arith, subst, ◌⊎◌, inl, inr,
}
use appmod.Errors.{Err}
use appmod.Base.Lifecycle.{Run}
use appmod.Base.Steps.{Task, entering, before_starting, after_starting, undoing, returned, step}
use appmod.Base.Environment.{Ctx}
use appmod.Base.Alike.{Leads, here, one_more, ends-Leads}
use appmod.App.{Rest, enter_module}
use appmod.App.Running.{put-same}
use appmod.App.Together.{
  Layer, Stage, at, ended, advance, tell, turn_at, turn, play, repeat, set_stage,
}

module _ (rest : Rest) (ctx : Ctx) (handle_of : Name → ℕ) where
  open rest use {env}

  abbrev L : Type 0
  L = Layer rest ctx handle_of

  pub stage_here :
      (x : Name) (t : Stage) (f : Name → Stage) → set_stage rest ctx handle_of x t f x ≡ t
  stage_here x t f = ground arith

  -- A goroutine has the result of `Init`, or its turn is a step of `Init`.
  told_or_works :
      (x : Name) (t : Task)
      → ((res : Option Err) × (t ≡ returned res))
        ⊎ ((s : L)
            → turn_at rest ctx handle_of x (at t) s
              ≡ advance rest ctx handle_of x
                  (step env ctx t (enter_module rest (handle_of x) s.world))
                  s)
  told_or_works x (returned res) = inl (res, refl)
  told_or_works x entering = inr (λ s. refl)
  told_or_works x (before_starting i hs) = inr (λ s. refl)
  told_or_works x (after_starting i hs) = inr (λ s. refl)
  told_or_works x (undoing e es fns) = inr (λ s. refl)

  told-ended :
      (x : Name) (s : L) (t : Task) (res : Option Err)
      → s.stage x ≡ at t
      → t ≡ returned res
      → (play rest ctx handle_of (x ∷ []) s).stage x ≡ ended
  unfolding play turn
  told-ended x s t res o q =
      subst (λ k. (turn_at rest ctx handle_of x k s).stage x ≡ ended) (sym (o ∙ ap at q)) (go res)
    where
      go : (r : Option Err) → (tell rest ctx handle_of x r s).stage x ≡ ended
      go none = stage_here x ended s.stage
      go (some e) = stage_here x ended s.stage

  -- A goroutine that is on its way to the end of `Init` ends.
  leads-ended :
      (x : Name) (s : L) (p q : Task × Run (env.World)) (res : Option Err) (t : Task)
      → Leads env ctx p q
      → q.0 ≡ returned res
      → s.stage x ≡ at t
      → p ≡ (t, enter_module rest (handle_of x) s.world)
      → (n : ℕ) × ((play rest ctx handle_of (repeat n x) s).stage x ≡ ended)
  unfolding play turn
  leads-ended x s p q res t (here k) e o r = (1, told-ended x s t res o (sym (ap (λ z. z.0) r) ∙ e))
  leads-ended x s p q res t (one_more k m l) e o r =
      let v = step env ctx t (enter_module rest (handle_of x) s.world) in
      let s' = advance rest ctx handle_of x v s in
      let (n, f) =
        leads-ended x s' (step env ctx k.0 k.1) m res v.0 l e (stage_here x (at v.0) s.stage) (
          ap (λ z. step env ctx z.0 z.1) r ∙ (λ j. (
            v.0,
            record {
              world = v.1.world;
              base = sym (put-same rest (handle_of x) v.1.base s.world.base) j;
            },
          ))) in
      elim (told_or_works x t) [
        | inl (res', z) ↦ (1, told-ended x s t res' o z)
        | inr w ↦ (
          suc n,
          subst (λ z. (play rest ctx handle_of (repeat n x) z).stage x ≡ ended)
              (sym (ap (λ z. turn_at rest ctx handle_of x z s) o ∙ w s)) f,
        )
      ]

  -- So no goroutine waits for another one.
  pub stage-ended :
      (x : Name) (s : L) (t : Stage)
      → s.stage x ≡ t
      → (n : ℕ) × ((play rest ctx handle_of (repeat n x) s).stage x ≡ ended)
  unfolding play
  stage-ended x s ended o = (0, o)
  stage-ended x s (at t) o =
      let (v, l) = ends-Leads env ctx t (enter_module rest (handle_of x) s.world) in
      leads-ended x s (t, enter_module rest (handle_of x) s.world) (returned v.0, v.1) v.0 t l refl
        o refl
