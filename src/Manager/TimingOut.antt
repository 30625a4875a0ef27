-- ===== src/Manager/TimingOut.antt =====
-- `Run` whose `Wait` returns before its hook `Stop` has: which modules its error names.
use appmod.Common.{
  ◌+◌, Name, List, [], ◌∷◌, ◌++◌, some, true, count, ◌≡◌, ◌≢◌, refl, sym, ap, ◌∙◌, arith, Perm,
  count-append, count-perm, perm_of_count,
}
use appmod.Common.Counts.{All-of_Occurs}
use appmod.Errors.{Err, Sentinel, wrapped, modules_still_running, shutdown_timeout, is_err, is_err?}
use appmod.Base.Environment.{Ctx}
use appmod.Manager.Defs.{Manager, stopped}
use appmod.Manager.Layers.{concat}
use appmod.Manager.Modules.{Modules}
use appmod.Manager.Teardown.{At, announced, stop_layers, stop_each}
use appmod.Manager.Calling.{InLayers}
use appmod.Manager.StopLayers.{stop_layers-perm, concat-append}
use appmod.Manager.StopLayer.{minus, with_started, count-minus, stop_each-manager}
use appmod.Manager.Stopping.{WellFormed}
use appmod.Manager.Running.{annotate, describe_timeout, wait_timed_out}
use appmod.Manager.RunLaws.{describe_timeout_lem}

count-InLayers :
    (d : Name) (ls : List (List Name)) (order : List Name)
    → InLayers ls order
    → count d order ≡ count d (concat ls)
count-InLayers d [] order e = ap (count d) e
count-InLayers d (l ∷ ls) order (xs, ys, e, p, rest) = omega (
  arith,
  ap (count d) e,
  count-append d xs ys,
  count-perm d p,
  count-InLayers d ls ys rest,
  count-append d l (concat ls),
)

-- A timeout with modules left names them.
describe_timeout-names :
    (e : Err) (names : List Name)
    → is_err e shutdown_timeout ≡ true
    → names ≢ []
    → describe_timeout (some e) names ≡ some (wrapped (modules_still_running names) e)
unfolding describe_timeout
describe_timeout-names e [] h n = absurd (n refl)
describe_timeout-names e (x ∷ xs) h n = ap (λ b. some (annotate b e (x ∷ xs))) h

module _ (mods : Modules) (ctx : Ctx) where
  open mods use {await_shutdown, teardown_ctx}

  -- A `Run` whose `Wait` gives up with ErrShutdownTimeout while `Stop` is at a layer, where the
  -- modules of the layers before and the modules `xs` of this one are done with, in any order
  -- within a layer, and the modules `ys` of it are not: if the started modules are registered, each
  -- once, then the manager is stopped, its started modules are exactly `ys` and those of the layers
  -- behind, and the error names them, and is the one of `Wait` by `errors.Is`.
  pub wait_timed_out-names :
      (s : At mods) (e : Err) (finished : List (List Name)) (l : List Name)
      (rest : List (List Name)) (order xs ys : List Name)
      → WellFormed s.manager
      → is_err e shutdown_timeout ≡ true
      → stop_layers s.manager.nodes s.manager.started ≡ finished ++ l ∷ rest
      → InLayers finished order
      → Perm l (xs ++ ys)
      → ys ≢ []
      → let (res, s') = wait_timed_out mods ctx e (order ++ xs) s in
        Perm s'.manager.started (ys ++ concat rest)
        × (s'.manager.state ≡ stopped)
        × (res ≡ some (wrapped (modules_still_running s'.manager.started) e))
        × ((t : Sentinel) → is_err? res t ≡ is_err e t)
  unfolding wait_timed_out
  wait_timed_out-names s e finished l rest order xs ys v h q o p n = (
    left,
    ap (λ (m : Manager). m.state) after,
    describe_timeout-names e s'.manager.started h not_nil,
    (describe_timeout_lem (some e) s'.manager.started).0,
  )
    where
      w : mods.World
      w = await_shutdown ctx s.world

      s0 : At mods
      s0 = announced mods (record s { world = w })

      s' : At mods
      s' = (stop_each mods (teardown_ctx ctx w) (order ++ xs) s0).1

      total :
          (d : Name)
          → count d s.manager.started
            ≡ count d order + (count d xs + (count d ys + count d (concat rest)))
      total d = omega (
        arith,
        count-perm d (stop_layers-perm s.manager.nodes s.manager.started v.distinct),
        ap (λ ls. count d (concat ls)) q,
        ap (count d) (concat-append finished (l ∷ rest)),
        count-append d (concat finished) (l ++ concat rest),
        count-append d l (concat rest),
        count-perm d p,
        count-append d xs ys,
        count-InLayers d finished order o,
      )

      after : s'.manager ≡ with_started (minus (order ++ xs) s.manager.started) (s0.manager)
      after = stop_each-manager mods (teardown_ctx ctx w) (order ++ xs) s0 (
          All-of_Occurs _ (order ++ xs)
            λ d u. v.registered d (omega (arith, total d, count-append d order xs, u)))

      counted : (d : Name) → count d s'.manager.started ≡ count d (ys ++ concat rest)
      counted d =
          ap (λ (m : Manager). count d m.started) after
          ∙ ground (
            arith,
            count-minus d (order ++ xs) s.manager.started,
            total d,
            v.distinct d,
            count-append d order xs,
            count-append d ys (concat rest),
          )

      left : Perm s'.manager.started (ys ++ concat rest)
      left = perm_of_count s'.manager.started (ys ++ concat rest) counted

      not_nil : s'.manager.started ≢ []
      not_nil z = n (none_of ys λ d. sym (counted d) ∙ ap (count d) z)
        where
          none_of : (k : List Name) → ((d : Name) → count d (k ++ concat rest) ≡ 0) → k ≡ []
          none_of [] c = refl
          none_of (x ∷ k) c = absurd (ground (arith, c x))
