-- ===== src/App/Interleaved.antt =====
-- Whatever the interleaving of the goroutines of a layer, what they tell agrees with the modules.
use appmod.Common.{
  ℕ, ◌+◌, Name, name_discrete, List, [], ◌∷◌, ◌++◌, Option, none, some, count, count-append, ◌≡◌,
  ◌≢◌, refl, sym, ap, ◌∙◌, arith, subst, ◌⊎◌, inl, inr, Occurs, All,
}
use appmod.Errors.{Err}
use appmod.Base.Defs.{Base, State, running}
use appmod.Base.Environment.{Ctx}
use appmod.Base.Lifecycle.{Run}
use appmod.Base.Steps.{Task, entering, before_starting, after_starting, undoing, returned, step}
use appmod.App.{Rest, World, enter_module}
use appmod.App.Running.{put-same, put-other}
use appmod.App.Ending.{stage_here, stage-ended}
use appmod.App.Fitting.{Fits, step-Fits}
use appmod.App.Together.{
  Layer, Stage, at, ended, advance, tell, turn_at, turn, play, repeat, spawned, set_stage,
}

module _ (rest : Rest) (ctx : Ctx) (handle_of : Name → ℕ) (layer : List Name) (began : List Name)
    (apart : (x y : Name)
      → Occurs x layer
      → Occurs y layer
      → handle_of x ≡ handle_of y
      → x ≡ y) where
  open rest use {env}

  abbrev L : Type 0
  L = Layer rest ctx handle_of

  abbrev pub state_of : Name → L → State
  state_of x s = (s.world.base (handle_of x)).state

  -- A goroutine has not told anything yet, or it told of a module that is running, or of an error.
  abbrev pub Tells : Name → Stage → L → Type 0
  Tells x (at t) s = Fits t (state_of x s) × (count x s.started ≡ count x began)
  Tells x ended s =
      ((state_of x s ≡ running) × (count x s.started ≡ count x began + 1))
      ⊎ ((s.errs ≢ []) × (count x s.started ≡ count x began))

  abbrev pub AllTell : L → Type 0
  AllTell s = (x : Name) → Occurs x layer → Tells x (s.stage x) s

  -- What a turn of another goroutine leaves.
  record Same (x : Name) (s s' : L) : Type 0 where
    stage : s'.stage x ≡ s.stage x
    state : state_of x s' ≡ state_of x s
    counts : count x s'.started ≡ count x s.started
    errs : s.errs ≢ [] → s'.errs ≢ []

  Same-Tells : (x : Name) (s s' : L) → Same x s s' → Tells x (s.stage x) s → Tells x (s'.stage x) s'
  Same-Tells x s s' k = λ v. subst (λ t. Tells x t s') (sym k.stage) (go (s.stage x) v)
    where
      go : (t : Stage) → Tells x t s → Tells x t s'
      go (at t) (f, c) = (subst (Fits t) (sym k.state) f, k.counts ∙ c)
      go ended (inl (r, c)) = inl (k.state ∙ r, k.counts ∙ c)
      go ended (inr (e, c)) = inr (k.errs e, k.counts ∙ c)

  stage_there :
      (x y : Name) (t : Stage) (f : Name → Stage)
      → ¬ (y ≡ x)
      → set_stage rest ctx handle_of x t f y ≡ f y
  stage_there x y t f n = ground arith

  advance-Same :
      (x y : Name) (v : Task × Run (env.World)) (s : L)
      → ¬ (y ≡ x)
      → ¬ (handle_of y ≡ handle_of x)
      → Same y s (advance rest ctx handle_of x v s)
  advance-Same x y (t, r) s n m = record {
    stage = stage_there x y (at t) s.stage n;
    state =
        ap (λ (b : Base). b.state)
          (put-other rest (handle_of x) (handle_of y) r.base s.world.base m);
    counts = refl;
    errs = λ e. e;
  }

  some_more : (es : List Err) (e : Err) → (es ++ e ∷ []) ≢ []
  some_more [] e q = cc
  some_more (x ∷ es) e q = cc

  tell-Same :
      (x y : Name) (res : Option Err) (s : L)
      → ¬ (y ≡ x)
      → Same y s (tell rest ctx handle_of x res s)
  tell-Same x y none s n = record {
    stage = stage_there x y ended s.stage n;
    state = refl;
    counts = ground (arith, count-append y s.started (x ∷ []));
    errs = λ e. e;
  }
  tell-Same x y (some e) s n = record {
    stage = stage_there x y ended s.stage n;
    state = refl;
    counts = refl;
    errs = λ q. some_more s.errs _;
  }

  turn-Same :
      (x y : Name) (t : Stage) (s : L)
      → ¬ (y ≡ x)
      → ¬ (handle_of y ≡ handle_of x)
      → Same y s (turn_at rest ctx handle_of x t s)
  turn-Same x y ended s n m = record { stage = refl; state = refl; counts = refl; errs = λ e. e }
  turn-Same x y (at (returned res)) s n m = tell-Same x y res s n
  turn-Same x y (at entering) s n m = advance-Same x y _ s n m
  turn-Same x y (at (before_starting i hs)) s n m = advance-Same x y _ s n m
  turn-Same x y (at (after_starting i hs)) s n m = advance-Same x y _ s n m
  turn-Same x y (at (undoing e es fns)) s n m = advance-Same x y _ s n m

  -- What a turn of the goroutine itself leaves.
  advance-Tells :
      (x : Name) (t : Task) (s : L)
      → Tells x (at t) s
      → let s' =
          advance rest ctx handle_of x
            (step env ctx t (enter_module rest (handle_of x) s.world))
            s in
        Tells x (s'.stage x) s'
  advance-Tells x t s (f, c) =
      let v = step env ctx t (enter_module rest (handle_of x) s.world) in
      let s' = advance rest ctx handle_of x v s in
      subst (λ k. Tells x k s') (sym (stage_here rest ctx handle_of x (at v.0) s.stage))
        (
          subst (λ (b : Base). Fits v.0 b.state)
              (sym (put-same rest (handle_of x) v.1.base s.world.base))
              (step-Fits rest ctx t (enter_module rest (handle_of x) s.world) f),
          c,
        )

  tell-Tells :
      (x : Name) (res : Option Err) (s : L)
      → Tells x (at (returned res)) s
      → let s' = tell rest ctx handle_of x res s in Tells x (s'.stage x) s'
  tell-Tells x none s (f, c) =
      subst (λ k. Tells x k (tell rest ctx handle_of x none s))
        (sym (stage_here rest ctx handle_of x ended s.stage))
        (inl (f, ground (arith, count-append x s.started (x ∷ []), c)))
  tell-Tells x (some e) s (f, c) =
      subst (λ k. Tells x k (tell rest ctx handle_of x (some e) s))
        (sym (stage_here rest ctx handle_of x ended s.stage)) (inr (some_more s.errs _, c))

  turn-Tells :
      (x : Name) (t : Stage) (s : L)
      → s.stage x ≡ t
      → Tells x t s
      → let s' = turn_at rest ctx handle_of x t s in Tells x (s'.stage x) s'
  turn-Tells x ended s q v = subst (λ k. Tells x k s) (sym q) v
  turn-Tells x (at (returned res)) s q v = tell-Tells x res s v
  turn-Tells x (at entering) s q v = advance-Tells x entering s v
  turn-Tells x (at (before_starting i hs)) s q v = advance-Tells x (before_starting i hs) s v
  turn-Tells x (at (after_starting i hs)) s q v = advance-Tells x (after_starting i hs) s v
  turn-Tells x (at (undoing e es fns)) s q v = advance-Tells x (undoing e es fns) s v

  turn-AllTell :
      (x : Name) (s : L) → Occurs x layer → AllTell s → AllTell (turn rest ctx handle_of x s)
  unfolding turn
  turn-AllTell x s o a y u = elim (name_discrete y x) [
    | yes e ↦
        subst (λ z. let s' = turn_at rest ctx handle_of x (s.stage x) s in Tells z (s'.stage z) s')
          (sym e) (turn-Tells x (s.stage x) s refl (a x o))
    | no n ↦ Same-Tells y s _ (turn-Same x y (s.stage x) s n (λ q. n (apart y x u o q))) (a y u)
  ]

  play-AllTell :
      (xs : List Name) (s : L)
      → All (λ x. Occurs x layer) xs
      → AllTell s
      → AllTell (play rest ctx handle_of xs s)
  unfolding play
  play-AllTell [] s o a = a
  play-AllTell (x ∷ xs) s o a =
      play-AllTell xs (turn rest ctx handle_of x s) o.1 (turn-AllTell x s o.0 a)

  -- The goroutines of a layer, whose modules are different ones, may take turns in any order, where
  -- a turn runs one hook or one cleanup at most. At every point, the goroutine of a module that has
  -- ended either told that the module is up, which is running and was appended to the started ones
  -- once, or told of an error, so that the layer has one, and appended nothing; one that has not
  -- ended appended nothing, and the state of its module tells how far it is. And no goroutine waits
  -- for another: some number of turns of its own bring it to its end.
  pub play-Tells :
      (xs : List Name) (w : World rest) (x : Name)
      → All (λ y. Occurs y layer) xs
      → Occurs x layer
      → let s = play rest ctx handle_of xs (spawned rest ctx handle_of w began) in
        Tells x (s.stage x) s
        × ((n : ℕ) × ((play rest ctx handle_of (repeat n x) s).stage x ≡ ended))
  play-Tells xs w x o u = (
    play-AllTell xs (spawned rest ctx handle_of w began) o (λ y v. (tt, refl)) x u,
    stage-ended rest ctx handle_of x
        (play rest ctx handle_of xs (spawned rest ctx handle_of w began)) _ refl,
  )
