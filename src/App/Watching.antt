-- ===== src/App/Watching.antt =====
-- What a module sees of the shutdown: the channel `Done` of the application context.
use appmod.Common.{
  ℕ, Name, List, [], ◌∷◌, ◌∙◌, Option, none, some, Bool, true, false, ◌≡◌, ◌≢◌, refl, ◌⊎◌, inl, inr,
}
use appmod.Errors.{Err, sentinel, already_started}
use appmod.AppContext.{done, app_context, is_closed}
use appmod.Base.Environment.{Ctx, View, detached}
use appmod.Base.Lasting.{Lasting, init-Lasts, destroy-Lasts}
use appmod.Manager.Defs.{Nodes, set_state, starting}
use appmod.Manager.Plan.{plan, Planned, layers_of, refused}
use appmod.Manager.Teardown.{At, stop, announced}
use appmod.Manager.Startup.{
  start, can_start, begin_start, begin_idle, start_begun, start_planned, start_layers, abort,
  inject_context,
}
use appmod.Manager.Histories.{Step, starts, stops, Program, Reached, Later}
use appmod.Manager.Keeping.{Keeps, Holds, stop_started-Holds}
use appmod.Manager.Counting.{IsMap}
use appmod.Manager.Soundness.{IsSound}
use appmod.Manager.Reaching.{Step-IsSound, Reached-IsSound}
use appmod.Manager.Invariance.{Reached-Holds, Later-Holds, inject_each-P}
use appmod.Manager.Climbing.{Due, Due-plan, start_layers-by}
use appmod.App.{Rest, World, base_modules, enter_module}
use appmod.App.Running.{AllUp, no_module, running_modules, same_up, up_state}

module _ (rest : Rest) where
  open rest use {env}

  -- The shutdown sequence has the context `sh_context`, which `End` cancels. A channel that is closed
  -- stays closed.
  pub record Watch : Type 0 where
    pub channel : ℕ → ℕ
    pub sh_context : ℕ
    pub closed : ℕ → env.World → Bool
    pub ended : (w : env.World) → closed (channel sh_context) (rest.end_shutdown w) ≡ true
    pub hook :
        (fn : ℕ) (ctx : Ctx) (v : View) (ch : ℕ) (w : env.World)
        → closed ch w ≡ true
        → closed ch (env.call_hook fn ctx v w).1 ≡ true
    pub cleanup :
        (fn : ℕ) (ctx : Ctx) (ch : ℕ) (w : env.World)
        → closed ch w ≡ true
        → closed ch (env.call_cleanup fn ctx w).1 ≡ true
    pub check :
        (h : ℕ) (ctx : Ctx) (ch : ℕ) (w : env.World)
        → closed ch w ≡ true
        → closed ch (rest.health_check h ctx w).1 ≡ true
    pub await :
        (ctx : Ctx) (ch : ℕ) (w : env.World)
        → closed ch w ≡ true
        → closed ch (rest.await_shutdown ctx w) ≡ true

  module _ (watch : Watch) where
    open watch use {channel, sh_context, closed}

    -- A module that receives from `AppContext().Done()` goes on.
    abbrev pub IsDone : At (base_modules rest) → Type 0
    unfolding done app_context
    IsDone s =
        is_closed closed (done channel (some (app_context s.manager.logger sh_context)))
          s.world.outer
        ≡ true

    abbrev pub lasting : Lasting env
    lasting = record {
      Q = λ w. closed (channel sh_context) w ≡ true;
      hook = λ fn ctx v. watch.hook fn ctx v (channel sh_context);
      cleanup = λ fn ctx. watch.cleanup fn ctx (channel sh_context);
    }

    -- The started modules are running, and `Done` is closed.
    unfoldable pub watched_modules : Keeps (base_modules rest)
    unfolding running_modules
    watched_modules =
        let k = running_modules rest in
        record {
          P = λ ns started w.
              AllUp rest ns started w × (closed (channel sh_context) w.outer ≡ true);
          distinct = λ ns started w p. k.distinct ns started w p.0;
          added = λ ns started w x n p f. (k.added ns started w x n p.0 f, p.1);
          inits = λ ns started w x n ctx p f b. (
            k.inits ns started w x n ctx p.0 f b,
            init-Lasts env lasting ctx (enter_module rest n.handle w) p.1,
          );
          destroys = λ ns started w x n ctx p f o. (
            k.destroys ns started w x n ctx p.0 f o,
            destroy-Lasts env lasting ctx (enter_module rest n.handle w) p.1,
          );
          injects = λ ns started w h p. (k.injects ns started w h p.0, p.1);
          checks = λ ns started w h ctx p.
              (k.checks ns started w h ctx p.0, watch.check h ctx (channel sh_context) w.outer p.1);
          ends = λ ns started w p. (k.ends ns started w p.0, watch.ended w.outer);
          awaits = λ ns started w ctx p.
              (k.awaits ns started w ctx p.0, watch.await ctx (channel sh_context) w.outer p.1);
        }

    -- Between two operations the rest of the program starts and stops no module, and a channel
    -- that is closed stays so.
    abbrev pub watch_program : Program (base_modules rest)
    watch_program = record {
      initial = λ w. Unit;
      other = λ w w'.
          ((h : ℕ) → (w'.base h).state ≡ (w.base h).state)
          × ((ch : ℕ) → closed ch w.outer ≡ true → closed ch w'.outer ≡ true);
    }

    abbrev Watched : At (base_modules rest) → Type 0
    Watched s = Holds (base_modules rest) watched_modules s

    abbrev Up : At (base_modules rest) → Type 0
    Up s = AllUp rest s.manager.nodes s.manager.started s.world

    -- Whatever was before, a teardown closes it.
    stop-Watched :
        (ctx : Ctx) (s : At (base_modules rest)) → Up s → Watched (stop (base_modules rest) ctx s).1
    unfolding stop watched_modules running_modules
    stop-Watched ctx s u =
        stop_started-Holds (base_modules rest) watched_modules ctx (announced (base_modules rest) s)
          ((running_modules rest).ends _ _ s.world u, watch.ended s.world.outer)

    abbrev Failed : Option Err × At (base_modules rest) → Type 0
    Failed r = r.0 ≢ none → Watched r.1

    start_layers-Failed :
        (ctx : Ctx) (ls : List (List Name)) (s : At (base_modules rest))
        → Due (base_modules rest) (running_modules rest) ls [] s
        → Up s
        → Failed (start_layers (base_modules rest) ctx ls s)
    unfolding abort running_modules
    start_layers-Failed ctx ls s =
        start_layers-by (base_modules rest) (running_modules rest) ctx Failed
          (λ t u d. absurd (d refl)) (λ e t u d. stop-Watched (detached ctx) t u) ls [] s

    -- A failed `Start` has done nothing outside the manager, or it has taken everything down.
    abbrev Undone : At (base_modules rest) → Option Err × At (base_modules rest) → Type 0
    Undone s r = r.0 ≢ none → (r.1.world ≡ s.world) ⊎ Watched r.1

    start-Undone :
        (ctx : Ctx) (s : At (base_modules rest))
        → IsMap s.manager.nodes
        → Up s
        → Undone s (start (base_modules rest) ctx s)
    unfolding start start_begun begin_start start_planned inject_context set_state running_modules
    start-Undone ctx s is_map u = go (can_start s.manager.state)
      where
        planned :
            (p : Planned)
            → plan s.manager.nodes ≡ p
            → Undone s (
                start_planned
                  (base_modules rest)
                  ctx
                  p
                  (record s { manager = record (s.manager) { state = starting } }))
        planned (refused e) q d = inl refl
        planned (layers_of ls) q d = inr (
            start_layers-Failed ctx ls _
              (Due-plan (base_modules rest) (running_modules rest) ls
                (inject_context (base_modules rest)
                  (record s { manager = record (s.manager) { state = starting } }))
                is_map q)
              (inject_each-P (base_modules rest) (running_modules rest) s.manager.nodes _ _ s.world
                u)
              d)

        idle :
            (l : List Name)
            → Undone s (start_begun (base_modules rest) ctx s.world (begin_idle l s.manager))
        idle [] d = planned (plan s.manager.nodes) refl d
        idle (x ∷ xs) d = inl refl

        go :
            (b : Bool)
            → Undone s (
                start_begun (base_modules rest) ctx s.world (elim b [
                  | false ↦ (some (sentinel already_started), s.manager)
                  | true ↦ begin_idle s.manager.started s.manager
                ]))
        go false d = inl refl
        go true d = idle s.manager.started d

    same_watched :
        (ns : Nodes) (started : List Name) (w w' : World rest)
        → watch_program.other w w'
        → AllUp rest ns started w
        → AllUp rest ns started w'
    same_watched ns started w w' o a =
        same_up rest ns started w w' a
          (λ x n q f. o.0 n.handle ∙ up_state rest ns started w x n a q f)

    Reached-Up : (s : At (base_modules rest)) → Reached (base_modules rest) watch_program s → Up s
    unfolding running_modules
    Reached-Up =
        Reached-Holds (base_modules rest) (running_modules rest) watch_program same_watched
          (λ w u. no_module rest w)

    stays :
        (s : At (base_modules rest))
        → IsSound s.manager
        → Watched s
        → (s' : At (base_modules rest)) → Later (base_modules rest) watch_program s s'
        → IsDone s'
    unfolding watched_modules done app_context running_modules
    stays s v h s' l =
        (Later-Holds (base_modules rest) watched_modules watch_program
          (λ ns started w w' o p. (same_watched ns started w w' o p.0, o.1 _ p.1)) s s' l v h).1

    -- The manager takes its modules down: by `Stop`, or by a `Start` that fails and has done
    -- anything outside the manager.
    pub data TearsDown (ctx : Ctx) (s : At (base_modules rest))
        : At (base_modules rest) → Type 0 where
      stopped : TearsDown ctx s (stop (base_modules rest) ctx s).1
      aborted :
          (start (base_modules rest) ctx s).0 ≢ none
          → ¬ ((start (base_modules rest) ctx s).1.world ≡ s.world)
          → TearsDown ctx s (start (base_modules rest) ctx s).1

    TearsDown-Step :
        (ctx : Ctx) (s s1 : At (base_modules rest))
        → TearsDown ctx s s1
        → Step (base_modules rest) watch_program s s1
    TearsDown-Step ctx s _ stopped = stops ctx
    TearsDown-Step ctx s _ (aborted d c) = starts ctx

    TearsDown-Watched :
        (ctx : Ctx) (s s1 : At (base_modules rest))
        → IsMap s.manager.nodes
        → Up s
        → TearsDown ctx s s1
        → Watched s1
    TearsDown-Watched ctx s _ m u stopped = stop-Watched ctx s u
    TearsDown-Watched ctx s _ m u (aborted d c) = elim (start-Undone ctx s m u d) [
      | inl p ↦ absurd (c p)
      | inr h ↦ h
    ]

    -- In every history of an application that starts and stops modules only through its manager and
    -- in which a closed channel stays closed, once the manager has taken its modules down, by
    -- `Stop` or by a `Start` that failed and did anything outside the manager, the channel `Done` that it
    -- gave to its modules is closed and stays so, also when the modules have been started again.
    pub Later-IsDone :
        (ctx : Ctx) (s s1 s' : At (base_modules rest))
        → Reached (base_modules rest) watch_program s
        → TearsDown ctx s s1
        → Later (base_modules rest) watch_program s1 s'
        → IsDone s'
    Later-IsDone ctx s s1 s' r t l =
        let v = Reached-IsSound (base_modules rest) watch_program s r in
        stays s1 (Step-IsSound (base_modules rest) watch_program s s1 (TearsDown-Step ctx s s1 t) v)
          (TearsDown-Watched ctx s s1 v.is_map (Reached-Up s r) t) s' l
