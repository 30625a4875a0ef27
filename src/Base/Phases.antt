-- ===== src/Base/Phases.antt =====
-- `runPhase`: which hooks of a phase run, in which order, and what it returns.
use appmod.Common.{
  ℕ, suc, ◌+◌, ◌<◌, Option, none, some, List, [], ◌∷◌, ◌++◌, ◌≡◌, refl, sym, ap, ap₂, ◌∙◌, ◌⊎◌, inl,
  inr, length, length-append, append_assoc, append-nil, arith, subst,
}
use mathlib.Core.Option.{some-injective}
use appmod.Phase.{Phase}
use appmod.Errors.{Err, hook_error}
use appmod.Base.Defs.{Hook, name_of}
use appmod.Base.Environment.{Environment, Ctx}
use appmod.Base.Lifecycle.{
  At, visit_hook, visit_checked, run_hook, and_then, blame, phase_loop, run_phase, order_hooks,
  context_err,
}
use appmod.Base.Recording.{recording, log_of, hooks_ran}
use appmod.Base.Passing.{
  call_one, call_run, run_hook-call, after, Passed, registered, after-append, Passed-append,
  after-cleanups, after-state, after-log,
}

module _ (env : Environment) (ctx : Ctx) where
  abbrev pub Logs : Type 0
  Logs = At (recording env)

  -- The hooks `ran`, called in turn from `r`, were stopped by the error `e`: by that of the
  -- context, when all of them had returned nil; or the ones before the last of them had, and `e`
  -- is the HookError of what that one returned. `Place p i k` says that the hook at the position
  -- `k` is the one with the index `i` in the phase `p`.
  pub data Blamed (r : Logs) (ran : List Hook) (Place : Phase → ℕ → ℕ → Type 0) (e : Err)
      : Type 0 where
    by_context :
        Passed (recording env) ctx ran r
        → context_err (recording env) ctx (after (recording env) ctx ran r).world ≡ some e
        → Blamed r ran Place e
    by_hook :
        (earlier : List Hook) (h : Hook) (phase : Phase) (i : ℕ) (e' : Err)
        → ran ≡ earlier ++ h ∷ []
        → Passed (recording env) ctx earlier r
        → context_err (recording env) ctx (after (recording env) ctx earlier r).world ≡ none
        → (call_one (recording env) ctx h (after (recording env) ctx earlier r)).0 ≡ some e'
        → Place phase i (length earlier)
        → e ≡ hook_error phase i h.name (name_of (after (recording env) ctx ran r).base) e'
        → Blamed r ran Place e

  -- Hooks that all went through, in front of these.
  pub Blamed-behind :
      (xs : List Hook) {r r1 : Logs} {ran : List Hook} {P Q : Phase → ℕ → ℕ → Type 0} {e : Err}
      → Passed (recording env) ctx xs r
      → r1 ≡ after (recording env) ctx xs r
      → ((p : Phase) (i k : ℕ) → P p i k → Q p i (length xs + k))
      → Blamed r1 ran P e
      → Blamed r (xs ++ ran) Q e
  Blamed-behind xs {r = r} {ran = ran} {P = P} {Q = Q} {e = e} p o f b =
      go (subst (λ z. Blamed z ran P e) o b)
    where
      back :
          (ys : List Hook)
          → after (recording env) ctx (xs ++ ys) r
            ≡ after (recording env) ctx ys (after (recording env) ctx xs r)
      back ys = after-append (recording env) ctx xs ys r

      go : Blamed (after (recording env) ctx xs r) ran P e → Blamed r (xs ++ ran) Q e
      go (by_context q c) =
          by_context (Passed-append (recording env) ctx xs ran r p q)
            (ap (λ (z : Logs). context_err (recording env) ctx z.world) (back ran) ∙ c)
      go (by_hook earlier h phase i e' s q c o' l x) =
          by_hook (xs ++ earlier) h phase i e'
            (ap (◌++◌ xs) s ∙ sym (append_assoc xs earlier (h ∷ [])))
            (Passed-append (recording env) ctx xs earlier r p q)
            (ap (λ (z : Logs). context_err (recording env) ctx z.world) (back earlier) ∙ c)
            (ap (λ (z : Logs). (call_one (recording env) ctx h z).0) (back earlier) ∙ o')
            (subst (Q phase i) (sym (length-append xs earlier)) (f phase i (length earlier) l))
            (x ∙ ap (λ (z : Logs). hook_error phase i h.name (name_of z.base) e') (sym (back ran)))

module _ (env : Environment) (ctx : Ctx) (phase : Phase) where
  -- How a phase ends that began at index `i` and `r`, ran the hooks `ran` and left `rest`: all of
  -- them returned nil; the context was done before the next hook; or the last hook that ran failed,
  -- and the others returned nil. The context was not done before any of the hooks that ran.
  abbrev pub Ending : ℕ → (ran rest : List Hook) → Option Err → Logs env ctx → Type 0
  Ending i ran rest res r =
      ((res ≡ none) × (rest ≡ []) × Passed (recording env) ctx ran r)
      ⊎ ((h : Hook) × (hs : List Hook) × (e : Err) × (rest ≡ h ∷ hs)
          × Passed (recording env) ctx ran r
          × (context_err (recording env) ctx (after (recording env) ctx ran r).world ≡ some e)
          × (res ≡ some e))
      ⊎ ((earlier : List Hook) × (h : Hook) × (e : Err) × (ran ≡ earlier ++ h ∷ [])
          × Passed (recording env) ctx earlier r
          × (context_err (recording env) ctx (after (recording env) ctx earlier r).world ≡ none)
          × ((call_one (recording env) ctx h (after (recording env) ctx earlier r)).0 ≡ some e)
          × (res
              ≡ some (
                  hook_error phase (i + length earlier) h.name
                    (name_of (after (recording env) ctx ran r).base) e)))

  -- The hooks `hs`, run from index `i`: a prefix of them ran, in order, and nothing else happened.
  pub record Ran (i : ℕ) (hs : List Hook) (r : Logs env ctx) (res : Option Err) (r' : Logs env ctx)
      : Type 0 where
    pub ran : List Hook
    pub rest : List Hook
    pub split : hs ≡ ran ++ rest
    pub behind : r' ≡ after (recording env) ctx ran r
    pub logged : log_of r' ≡ log_of r ++ hooks_ran r.base.state ran
    pub state_kept : r'.base.state ≡ r.base.state
    pub cleanups : r'.base.cleanups ≡ r.base.cleanups ++ registered (recording env) ctx ran r
    pub ending : Ending i ran rest res r

  -- What ran, and how it ended, tells the rest.
  Ran-of :
      {i : ℕ} {hs : List Hook} {r : Logs env ctx} {res : Option Err} {r' : Logs env ctx}
      (ran rest : List Hook)
      → hs ≡ ran ++ rest
      → r' ≡ after (recording env) ctx ran r
      → Ending i ran rest res r
      → Ran i hs r res r'
  Ran-of {r = r} ran rest s b e = record {
    ran = ran;
    rest = rest;
    split = s;
    behind = b;
    logged = ap (λ (z : Logs env ctx). log_of z) b ∙ after-log env ctx ran r;
    state_kept = ap (λ (z : Logs env ctx). z.base.state) b ∙ after-state env ctx ran r;
    cleanups =
        ap (λ (z : Logs env ctx). z.base.cleanups) b ∙ after-cleanups (recording env) ctx ran r;
    ending = e;
  }

  -- One hook: the context was done, or the hook let the phase go on, or it stopped it.
  data Visit (i : ℕ) (h : Hook) (r : Logs env ctx) (res : Option Err) (r' : Logs env ctx)
      : Type 0 where
    done :
        (e : Err)
        → context_err (recording env) ctx r.world ≡ some e
        → res ≡ some e
        → r' ≡ r
        → Visit i h r res r'
    passed :
        context_err (recording env) ctx r.world ≡ none
        → (call_one (recording env) ctx h r).0 ≡ none
        → res ≡ none
        → r' ≡ (call_one (recording env) ctx h r).1
        → Visit i h r res r'
    stopped :
        (e : Err)
        → context_err (recording env) ctx r.world ≡ none
        → (call_one (recording env) ctx h r).0 ≡ some e
        → res ≡ some (hook_error phase i h.name (name_of r'.base) e)
        → r' ≡ (call_one (recording env) ctx h r).1
        → Visit i h r res r'

  visit_checked-Visit :
      (i : ℕ) (h : Hook) (r : Logs env ctx) (c : Option Err) (f : Option ℕ)
      → context_err (recording env) ctx r.world ≡ c
      → h.run ≡ f
      → let v = visit_checked (recording env) ctx phase i h r c f in Visit i h r v.0 v.1
  unfolding visit_checked
  visit_checked-Visit i h r (some e) f c g = done e c refl refl
  visit_checked-Visit i h r none none c g =
      passed c (ap (λ t. (call_run (recording env) ctx t r).0) g) refl
        (sym (ap (λ t. (call_run (recording env) ctx t r).1) g))
  visit_checked-Visit i h r none (some fn) c g =
      blame-Visit (run_hook (recording env) ctx fn r) (
        ap (λ t. call_run (recording env) ctx t r) g ∙ sym (run_hook-call (recording env) ctx fn r))
    where
      blame-Visit :
          (v : Option Err × Logs env ctx)
          → call_one (recording env) ctx h r ≡ v
          → let w = blame (recording env) phase i h v in Visit i h r w.0 w.1
      blame-Visit (none, r') q =
          passed c (ap (λ (v : Option Err × Logs env ctx). v.0) q) refl
            (sym (ap (λ (v : Option Err × Logs env ctx). v.1) q))
      blame-Visit (some e, r') q =
          stopped e c (ap (λ (v : Option Err × Logs env ctx). v.0) q) refl
            (sym (ap (λ (v : Option Err × Logs env ctx). v.1) q))

  visit_hook-Visit :
      (i : ℕ) (h : Hook) (r : Logs env ctx)
      → let v = visit_hook (recording env) ctx phase i h r in Visit i h r v.0 v.1
  unfolding visit_hook
  visit_hook-Visit i h r = visit_checked-Visit i h r _ h.run refl refl

  Ending-cons :
      (i : ℕ) (h : Hook) {ran rest : List Hook} {res : Option Err} (r : Logs env ctx)
      → context_err (recording env) ctx r.world ≡ none
      → (call_one (recording env) ctx h r).0 ≡ none
      → Ending (suc i) ran rest res (call_one (recording env) ctx h r).1
      → Ending i (h ∷ ran) rest res r
  Ending-cons i h r c o (inl (e, l, p)) = inl (e, l, (c, o, p))
  Ending-cons i h r c o (inr (inl (h', hs, e, l, p, d, q))) =
      inr (inl (h', hs, e, l, (c, o, p), d, q))
  Ending-cons i h {ran = ran} r c o (inr (inr (earlier, h', e, s, p, d, q, x))) =
      inr (inr (h ∷ earlier, h', e, ap (◌∷◌ h) s, (c, o, p), d, q, x ∙ ap index (omega arith)))
    where
      index : ℕ → Option Err
      index k =
          some (hook_error phase k h'.name (name_of (after (recording env) ctx (h ∷ ran) r).base) e)

  -- A hook that let the phase go on, in front of the rest of the phase.
  Ran-cons :
      (i : ℕ) (h : Hook) (hs : List Hook) (r r' : Logs env ctx) {res : Option Err}
      {r'' : Logs env ctx}
      → context_err (recording env) ctx r.world ≡ none
      → (call_one (recording env) ctx h r).0 ≡ none
      → r' ≡ (call_one (recording env) ctx h r).1
      → Ran (suc i) hs r' res r''
      → Ran i (h ∷ hs) r res r''
  Ran-cons i h hs r r' {res = res} {r'' = r''} c o q w =
      let t = subst (λ z. Ran (suc i) hs z res r'') q w in
      Ran-of (h ∷ t.ran) t.rest (ap (◌∷◌ h) t.split) t.behind (Ending-cons i h r c o t.ending)

  phase_loop-Ran :
      (i : ℕ) (hs : List Hook) (r : Logs env ctx)
      → let w = phase_loop (recording env) ctx phase i hs r in Ran i hs r w.0 w.1
  unfolding phase_loop
  phase_loop-Ran i [] r = Ran-of [] [] refl refl (inl (refl, refl, tt))
  phase_loop-Ran i (h ∷ hs) r =
      go (visit_hook (recording env) ctx phase i h r) (visit_hook-Visit i h r)
        (phase_loop-Ran (suc i) hs)
    where
      go :
          (v : Option Err × Logs env ctx)
          → Visit i h r v.0 v.1
          → ((r' : Logs env ctx)
              → let w = phase_loop (recording env) ctx phase (suc i) hs r' in
                Ran (suc i) hs r' w.0 w.1)
          → let w = and_then (recording env) v (phase_loop (recording env) ctx phase (suc i) hs) in
            Ran i (h ∷ hs) r w.0 w.1
      go (none, r') (done e c p q) ih = cc
      go (some x, r') (done e c p q) ih =
          Ran-of [] (h ∷ hs) refl q (inr (inl (h, hs, e, refl, tt, c, p)))
      go (none, r') (passed c o p q) ih = Ran-cons i h hs r r' c o q (ih r')
      go (some x, r') (passed c o p q) ih = cc
      go (none, r') (stopped e c o p q) ih = cc
      go (some x, r') (stopped e c o p q) ih =
          Ran-of (h ∷ []) hs refl q
            (inr (inr ([], h, e, refl, tt, c, o, p ∙ ap₂ told (omega arith) q)))
        where
          told : ℕ → Logs env ctx → Option Err
          told k z = some (hook_error phase k h.name (name_of z.base) e)

  -- A phase that returned nil went through all its hooks, and each of them returned nil.
  pub Ran-all :
      {i : ℕ} {hs : List Hook} {r r' : Logs env ctx} (w : Ran i hs r none r')
      → (w.ran ≡ hs)
        × (w.rest ≡ [])
        × Passed (recording env) ctx hs r
        × (r' ≡ after (recording env) ctx hs r)
  Ran-all {hs = hs} {r = r} {r' = r'} w = elim w.ending [
    | inl (_, e, p) ↦
        let all = sym (append-nil w.ran) ∙ ap (◌++◌ w.ran) (sym e) ∙ sym w.split in
        (
          all,
          e,
          subst (λ l. Passed (recording env) ctx l r) all p,
          subst (λ l. r' ≡ after (recording env) ctx l r) all w.behind,
        )
    | inr (inl (h, hs', e, p, t, q, x)) ↦ cc
    | inr (inr (hs', h, e, p, t, c, q, x)) ↦ cc
  ]

  -- The hook at a position of a phase of `n` hooks has that index.
  abbrev pub InPhase : ℕ → Phase → ℕ → ℕ → Type 0
  InPhase n p i k = (p ≡ phase) × (i ≡ k) × (k < n)

  pub Ran-Blamed :
      {hs : List Hook} {r r' : Logs env ctx} {e : Err} (w : Ran 0 hs r (some e) r')
      → Blamed env ctx r w.ran (InPhase (length hs)) e
  Ran-Blamed {hs = hs} {r = r} {e = e} w = elim w.ending [
    | inl (p, _, _) ↦ cc
    | inr (inl (h, hs', x, p, t, q, same)) ↦ by_context t (q ∙ sym same)
    | inr (inr (earlier, h, x, p, t, c, q, same)) ↦
        by_hook earlier h phase _ x p t c q
          (
            refl,
            omega arith,
            omega (
              arith,
              ap length w.split,
              ap length p,
              length-append w.ran w.rest,
              length-append earlier (h ∷ []),
            ),
          )
          (some-injective _ _ same)
  ]

  -- A phase calls a prefix of its hooks in priority order, each in the state that the phase began
  -- in, and does nothing else: it leaves the state alone, and appends to the cleanups those that
  -- the hooks gave to `AddCleanup`. Before each of the hooks called, the context was not done. The
  -- phase returns nil if all hooks were called and each returned nil; or the error of the context
  -- before the first hook left, where those before returned nil; or the HookError, with phase,
  -- index and names, of the error that the last hook called returned or panicked with, where those
  -- before returned nil.
  pub run_phase-Ran :
      (hooks : List Hook) (r : Logs env ctx)
      → let w = run_phase (recording env) ctx phase hooks r in Ran 0 (order_hooks hooks) r w.0 w.1
  unfolding run_phase
  run_phase-Ran hooks r = phase_loop-Ran 0 (order_hooks hooks) r
