-- ===== src/Manager/Histories.antt =====
-- The operations of a manager, one behind the other, in a program that does other things as well.
use appmod.Common.{ℕ, Name, List, Option}
use appmod.Base.Environment.{Ctx}
use appmod.Manager.Defs.{ManagerOption, register, new_manager}
use appmod.Manager.Modules.{Modules}
use appmod.Manager.Teardown.{At, stop}
use appmod.Manager.Startup.{start, health}
use appmod.Manager.Running.{run, trigger_shutdown}
use appmod.Manager.Soundness.{AreOptions}

-- The worlds in which a program may make its manager, and what it may do to the world between two
-- operations of it.
pub record Program (mods : Modules) : Type 1 where
  pub initial : mods.World → Type 0
  pub other : mods.World → mods.World → Type 0

module _ (mods : Modules) (program : Program mods) where
  pub data Step (s : At mods) : At mods → Type 0 where
    registers :
        (name : Name) (module' : Option ℕ) (deps : List Name)
        → Step s (record s { manager = (register name module' deps s.manager).1 })
    starts : (ctx : Ctx) → Step s (start mods ctx s).1
    stops : (ctx : Ctx) → Step s (stop mods ctx s).1
    probed : (ctx : Ctx) → Step s (health mods ctx s).1
    runs : (ctx : Ctx) → Step s (run mods ctx s).1
    shuts_down : Step s (trigger_shutdown mods s)
    elsewhere : (w : mods.World) → program.other s.world w → Step s (record s { world = w })

  -- The managers that a program can come to.
  pub data Reached : At mods → Type 0 where
    made :
        (w : mods.World) (discard : ℕ) (opts : List ManagerOption)
        → program.initial w
        → AreOptions opts
        → Reached (record { world = w; manager = new_manager discard opts })
    after : (s s' : At mods) → Reached s → Step s s' → Reached s'

  -- What comes after a moment: some operations later.
  pub data Later (s : At mods) : At mods → Type 0 where
    now : Later s s
    then_one : (s1 s2 : At mods) → Later s s1 → Step s1 s2 → Later s s2
