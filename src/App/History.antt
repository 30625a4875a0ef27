-- ===== src/App/History.antt =====
-- Applications over time: what the manager says of its modules is so.
use appmod.Common.{
  ℕ, Name, List, Option, none, some, ◌≡◌, sym, ap, ◌∙◌, arith, Occurs, Perm, count-perm, inl, inr,
  subst,
}
use appmod.Errors.{Err}
use appmod.Base.Defs.{running}
use appmod.Base.Environment.{Ctx}
use appmod.Manager.Defs.{Node, Nodes, Manager, find_node, keys}
use appmod.Manager.Known.{find_node_cases}
use appmod.Manager.Teardown.{At}
use appmod.Manager.Startup.{start}
use appmod.Manager.Starting.{Launched}
use appmod.Manager.Launching.{Answered, start-Answered}
use appmod.Manager.Histories.{Program, Reached}
use appmod.Manager.Reaching.{Reached-IsSound}
use appmod.Manager.Invariance.{start-Holds, Reached-Holds}
use appmod.App.{Rest, World, base_modules}
use appmod.App.Running.{AllUp, no_module, running_modules, same_up, up_state}

-- A registered name is a key.
pub find_node-Occurs :
    (x : Name) (ns : Nodes) (n : Node) → find_node x ns ≡ some n → Occurs x (keys ns)
find_node-Occurs x ns n f = elim (find_node_cases x ns) [ inl (p, q) ↦ cc | inr (m, p, q) ↦ q ]

module _ (rest : Rest) where
  -- Between two operations the rest of the program may do anything but start or stop a module
  -- that the manager has.
  abbrev pub app_program : Program (base_modules rest)
  app_program = record {
    initial = λ w. Unit;
    other = λ w w'. (h : ℕ) → (w'.base h).state ≡ (w.base h).state;
  }

  -- In every history of an application that starts and stops modules only through its manager, a
  -- module that the manager counts as started is registered, is running, and is no other started
  -- module under another name.
  pub Reached-AllUp :
      (s : At (base_modules rest))
      → Reached (base_modules rest) app_program s
      → AllUp rest s.manager.nodes s.manager.started s.world
  unfolding running_modules
  Reached-AllUp s r =
      Reached-Holds (base_modules rest) (running_modules rest) app_program others
        (λ w u. no_module rest w) s r
    where
      others :
          (ns : Nodes) (started : List Name) (w w' : World rest)
          → ((h : ℕ) → (w'.base h).state ≡ (w.base h).state)
          → AllUp rest ns started w
          → AllUp rest ns started w'
      others ns started w w' e a =
          same_up rest ns started w w' a
            (λ x n o f. e n.handle ∙ up_state rest ns started w x n a o f)

  -- In every history of an application that starts and stops modules only through its manager, if
  -- `Start` returns nil, then every registered module is running.
  pub start-AllRunning :
      (ctx : Ctx) (s : At (base_modules rest))
      → Reached (base_modules rest) app_program s
      → (start (base_modules rest) ctx s).0 ≡ none
      → (x : Name) (n : Node) → find_node x s.manager.nodes ≡ some n
      → ((start (base_modules rest) ctx s).1.world.base n.handle).state ≡ running
  unfolding running_modules
  start-AllRunning ctx s r e x n f =
      let m = (Reached-IsSound (base_modules rest) app_program s r).is_map in
      go (start (base_modules rest) ctx s).0 (start (base_modules rest) ctx s).1
        (start-Answered (base_modules rest) ctx s m) e
        (start-Holds (base_modules rest) (running_modules rest) ctx s m (Reached-AllUp s r))
    where
      all :
          (s' : At (base_modules rest)) (names : List Name)
          → s'.manager.started ≡ names
          → s'.manager.nodes ≡ s.manager.nodes
          → Perm names (keys s.manager.nodes)
          → AllUp rest s'.manager.nodes s'.manager.started s'.world
          → (s'.world.base n.handle).state ≡ running
      all s' names p q perm a =
          up_state rest s'.manager.nodes s'.manager.started s'.world x n a
            (subst (Occurs x) (sym p)
              (omega (arith, count-perm x perm, find_node-Occurs x s.manager.nodes n f)))
            (ap (find_node x) q ∙ f)

      go :
          (res : Option Err) (s' : At (base_modules rest))
          → Answered (base_modules rest) ctx s res s'
          → res ≡ none
          → AllUp rest s'.manager.nodes s'.manager.started s'.world
          → (s'.world.base n.handle).state ≡ running
      go res s' (Answered.busy a b c) p u = cc
      go res s' (Answered.left_over a b c d) p u = cc
      go res s' (Answered.unplanned e' a b c d g) p u = cc
      go res s' (Answered.launched ls a b c (Launched.down e' tried s1 r d g h i j k l n o)) p u =
          absurd (i p)
      go res s' (Answered.launched ls a b c (Launched.up names d m g h i j)) p u =
          all s' names (ap (λ (k : Manager). k.started) m) (ap (λ (k : Manager). k.nodes) m) g u
