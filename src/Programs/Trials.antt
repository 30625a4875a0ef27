-- ===== src/Programs/Trials.antt =====
-- A scheduler and a hub for the programs, and the theorems at them.
use appmod.Common.{
  ℕ, zero, suc, ◌+◌, ◌==◌, bytes, Bool, true, false, Option, none, some, List, [], ◌∷◌, ◌++◌,
  length, ◌≡◌, refl, ap, arith, pos,
}
use mathlib.Core.List.Perm
use mathlib.Core.Option.{some-injective}
use appmod.Base.Environment.{given, detached}
use appmod.Manager.Defs.{Manager}
use appmod.Manager.Teardown.{At}
use appmod.Manager.Running.{run}
use appmod.App.{base_modules}
use appmod.Programs.Site.{Shared}
use appmod.Programs.Site.Parts.{Outside, site}
use appmod.Programs.Site.Running.{IsDocumented, at_first, Finished, run-Finished}
use appmod.Programs.Orders.{Broker, Order}
use appmod.Programs.Orders.Parts.{Event, places, restarts_mailer}
use appmod.Programs.Orders.Documented.{Sight, IsKept, times, bit}
use appmod.Programs.Orders.Standing.{program}
use appmod.Programs.Orders.Running.{main-Finished, runs}
use appmod.Programs.Site
use appmod.Programs.Orders

-- The goroutines of a layer finish in its order.
abbrev quiet_outside : Outside
quiet_outside = record {
  ctx_err = λ c w. none;
  end_shutdown = λ w. record w { shut_down = true };
  await_shutdown = λ ctx w. w;
  teardown_ctx = λ ctx w. detached ctx;
  wait_result = λ e w. e;
  sh_exit_code = λ w. 0;
  arrange = λ w names. names;
  arrange-perm = λ w names. Perm.refl names;
}

quiet_outside-IsDocumented : IsDocumented quiet_outside
quiet_outside-IsDocumented = record {
  open_ended = λ c w. refl;
  ends = λ w. refl;
  awaits = λ ctx w. (w.shut_down, refl);
  passes = λ w. refl;
}

run-Finished_example :
    (m : Manager) × (Site.Parts.main_manager 3 (pos 5) ≡ some m)
    × (let r =
          run
            (base_modules (site quiet_outside))
            (given 0)
            (record { world = at_first quiet_outside; manager = m }) in
        (r.0 ≡ none) × Finished quiet_outside quiet_outside-IsDocumented r.1)
run-Finished_example = run-Finished quiet_outside quiet_outside-IsDocumented (given 0) 3 (pos 5)

-- A hub with a slot for each handle.
record Slots : Type 0 where
  closed : Bool
  slots : List (Option ℕ)
  queue : List (ℕ × Order)

abbrev slot : ℕ → List (Option ℕ) → Option ℕ
slot s [] = none
slot zero (x ∷ xs) = x
slot (suc s) (x ∷ xs) = slot s xs

abbrev clear : ℕ → List (Option ℕ) → List (Option ℕ)
clear s [] = []
clear zero (x ∷ xs) = none ∷ xs
clear (suc s) (x ∷ xs) = x ∷ clear s xs

abbrev reach : ℕ → List (Option ℕ) → ℕ
reach g [] = 0
reach g (none ∷ xs) = reach g xs
reach g (some f ∷ xs) = bit (g == f) + reach g xs

slot-fresh : (xs : List (Option ℕ)) → slot (length xs) xs ≡ none
slot-fresh [] = refl
slot-fresh (x ∷ xs) = slot-fresh xs

slot-last : (f : ℕ) (xs : List (Option ℕ)) → slot (length xs) (xs ++ some f ∷ []) ≡ some f
slot-last f [] = refl
slot-last f (x ∷ xs) = slot-last f xs

slot-other :
    (s f : ℕ) (xs : List (Option ℕ)) → ¬ (s ≡ length xs) → slot s (xs ++ some f ∷ []) ≡ slot s xs
slot-other zero f [] n = absurd (n refl)
slot-other (suc s) f [] n = refl
slot-other zero f (x ∷ xs) n = refl
slot-other (suc s) f (x ∷ xs) n = slot-other s f xs (λ e. n (ap suc e))

slot-clear : (s t : ℕ) (xs : List (Option ℕ)) → ¬ (t ≡ s) → slot t (clear s xs) ≡ slot t xs
slot-clear s t [] n = refl
slot-clear zero zero (x ∷ xs) n = absurd (n refl)
slot-clear zero (suc t) (x ∷ xs) n = refl
slot-clear (suc s) zero (x ∷ xs) n = refl
slot-clear (suc s) (suc t) (x ∷ xs) n = slot-clear s t xs (λ e. n (ap suc e))

reach-last :
    (g f : ℕ) (xs : List (Option ℕ)) → reach g (xs ++ some f ∷ []) ≡ reach g xs + bit (g == f)
reach-last g f [] = omega arith
reach-last g f (none ∷ xs) = reach-last g f xs
reach-last g f (some h ∷ xs) = omega (arith, reach-last g f xs)

reach-clear :
    (g f s : ℕ) (xs : List (Option ℕ))
    → slot s xs ≡ some f
    → reach g xs ≡ reach g (clear s xs) + bit (g == f)
reach-clear g f s [] e = cc
reach-clear g f zero (none ∷ xs) e = cc
reach-clear g f zero (some h ∷ xs) e = omega (arith, ap (λ k. bit (g == k)) (some-injective _ _ e))
reach-clear g f (suc s) (none ∷ xs) e = reach-clear g f s xs e
reach-clear g f (suc s) (some h ∷ xs) e = omega (arith, reach-clear g f s xs e)

abbrev slot_hub : Broker
slot_hub = record {
  Hub = Slots;
  subscribe = λ f h. ((none, length h.slots), record h { slots = h.slots ++ some f ∷ [] });
  close_subscription = λ s h. record h { slots = clear s h.slots };
  publish = λ ctx o h. (
    (none, times (reach 0 h.slots) 0),
    record h { queue = h.queue ++ times (reach 1 h.slots) (1, o) },
  );
  drain = λ ctx h. ((none, h.queue), record h { queue = [] });
  close = λ ctx h. (none, record h { closed = true });
}

abbrev slot_sight : Sight slot_hub
slot_sight = record {
  closed = λ h. h.closed;
  owner = λ s h. slot s h.slots;
  reach = λ f h. reach f h.slots;
  queue = λ h. h.queue;
}

kept : (h h' : Slots) → h'.closed ≡ h.closed → h'.slots ≡ h.slots → IsKept slot_hub slot_sight h h'
kept h h' c e = record { closed = c; owner = λ s. ap (slot s) e; reach = λ f. ap (reach f) e }

slot_hub-IsDocumented : Orders.Documented.IsDocumented slot_hub slot_sight
slot_hub-IsDocumented = record {
  subscribes = λ f h o. (
    refl,
    o,
    refl,
    slot-fresh h.slots,
    slot-last f h.slots,
    (λ s n. slot-other s f h.slots n),
    (λ g. reach-last g f h.slots),
  );
  unsubscribes =
      λ s f h o q. (o, (λ t n. slot-clear s t h.slots n), (λ g. reach-clear g f s h.slots q));
  no_new_events = λ s h q. q;
  publishes = λ ctx o h c q.
      (refl, refl, ap (λ l. l ++ times (reach 1 h.slots) (1, o)) q, kept h _ refl refl);
  drains = λ ctx h. (refl, refl, refl, kept h _ refl refl);
  closes = λ ctx h q. (refl, q);
}

abbrev slots_outside : Orders.Standing.Outside
slots_outside = record {
  broker = slot_hub;
  sight = slot_sight;
  documented = slot_hub-IsDocumented;
  new_hub = record { closed = false; slots = []; queue = [] };
  new_hub-IsNew = record { open_hub = refl; queue = refl; reach = λ f. refl };
  ctx_err = λ c d. none;
  open_ended = λ c d. refl;
  end_shutdown = λ w. w;
  ends = λ w. refl;
  arrange = λ w names. names;
  arrange-perm = λ w names. Perm.refl names;
}

abbrev first_order : Order
first_order = record { id = bytes "order-1"; item = bytes "widget"; qty = 2 }

abbrev second_order : Order
second_order = record { id = bytes "order-2"; item = bytes "gizmo"; qty = 1 }

abbrev third_order : Order
third_order = record { id = bytes "order-3"; item = bytes "gadget"; qty = 5 }

-- What `main` does between the start and the stop.
abbrev day : List Event
day = places first_order ∷ places second_order ∷ restarts_mailer ∷ places third_order ∷ []

main-Finished_example :
    (m : Manager) × (Orders.Parts.main_manager ≡ some m)
    × (s : At (base_modules (program slots_outside))) × (runs slots_outside
          (given 0)
          day
          (record { world = Orders.Running.at_first slots_outside; manager = m })
        ≡ some s)
    × Orders.Running.Finished slots_outside (first_order ∷ second_order ∷ third_order ∷ []) s
main-Finished_example = main-Finished slots_outside (given 0) day
