-- ===== src/Programs/Site.antt =====
-- examples/manager/main.go: five modules that find one another through the registry.
pub mod Parts
pub mod Graph
pub mod States
pub mod Starting
pub mod Launching
pub mod Stopping
pub mod Running
use appmod.Common.{
  ℕ, ◌+◌, ◌==◌, Name, bytes, name_eqb, Bool, true, false, Option, none, some, List, [], ◌∷◌, ◌++◌,
  if◌then◌else◌, Perm,
}
use appmod.Phase.{after_start, before_destroy}
use appmod.Errors.{Err}
use appmod.Config.{new_config}
use appmod.Base.Defs.{Base, zero_value, set_config, add_anonymous, ◌>>=◌}
use appmod.Base.Environment.{Environment, Ctx, View, Call, returned}
use appmod.Base.Options.{new_module, with_config}
use appmod.Registry.{
  Registry, Value, Types, Found, interface, impl, missing, new_registry, provide, require, revoke,
}
use appmod.Manager.Defs.{Manager, register}
use appmod.App.{Rest}

-- The contracts `DB` and `Cache`. A module implements the one with its own number.
abbrev pub db_contract : ℕ
db_contract = 0

abbrev pub cache_contract : ℕ
cache_contract = 1

abbrev pub contracts : Types
contracts = record { kind = λ t. interface; asserts = λ t dynamic. t == dynamic }

-- The pointers to the db module and to the cache module.
abbrev pub db_value : Value
db_value = record { dynamic = 0; is_nil = false; content = 1 }

abbrev pub cache_value : Value
cache_value = record { dynamic = 1; is_nil = false; content = 3 }

-- What a hook prints.
pub data Line : Type 0 where
  providing_db : Line
  warmed : Name → Line
  providing_cache : Line
  drained : Line
  read_first : Name → Line
  second_not_found : Line

-- What the hooks share: the registry of the injected context, the fields `db` and `store` of the
-- cache module, the goroutines of the worker that have not ended, how often `done` of the worker was
-- closed, whether the `Done` channel is closed, whether a hook waits for a channel that no goroutine
-- is going to close, and what was printed by hooks.
pub record Shared : Type 0 where
  pub registry : Option Registry
  pub cache_db : Option Value
  pub store : List (Name × Name)
  pub workers : ℕ
  pub closes : ℕ
  pub shut_down : Bool
  pub stuck : Bool
  pub output : List Line

abbrev pub print : Line → Shared → Shared
print l w = record w { output = w.output ++ l ∷ [] }

abbrev pub first_user : Name
first_user = bytes "user:1"

abbrev pub second_user : Name
second_user = bytes "user:2"

abbrev pub alice : Name
alice = bytes "Alice"

-- `v, ok := m[key]`, and `m[key] = val`, of a map of strings.
unfoldable pub get : Name → List (Name × Name) → Option Name
get key [] = none
get key ((k, v) ∷ m) = if name_eqb k key then some v else get key m

unfoldable pub put : Name → Name → List (Name × Name) → List (Name × Name)
put key val [] = (key, val) ∷ []
put key val ((k, v) ∷ m) = if name_eqb k key then (key, val) ∷ m else (k, v) ∷ put key val m

-- `Query`: none is its error.
unfoldable pub query : Name → Option Name
unfolding get
query key = get key ((first_user, alice) ∷ [])

-- `set`.
unfoldable pub set : Name → Name → Shared → Shared
unfolding put
set key val w = record w { store = put key val w.store }

abbrev pub fill : Name → Option Name → Shared → Option Name × Shared
fill key none w = (none, w)
fill key (some v) w = (some v, set key v w)

-- `Get`, given what the store has and the field `db`.
unfoldable pub get_cached : Name → Option Name → Option Value → Shared → Option Name × Shared
unfolding query
get_cached key (some v) db w = (some v, w)
get_cached key none none w = (none, w)
get_cached key none (some db) w = fill key (query key) w

unfoldable pub get_user : Name → Shared → Option Name × Shared
unfolding get_cached get
get_user key w = get_cached key (get key w.store) w.cache_db w

-- The hooks of the db module.
unfoldable pub provide_db : Shared → Option Err × Shared
unfolding provide
provide_db w =
    let w1 = print providing_db w in
    let (e, r) = provide contracts db_contract w1.registry db_value in
    (e, record w1 { registry = r })

unfoldable pub revoke_db : Shared → Option Err × Shared
unfolding revoke
revoke_db w = let (found, e, r) = revoke db_contract w.registry in (e, record w { registry = r })

-- The hook of the cache module.
abbrev pub warm : Option Name → Shared → Shared
warm none w = w
warm (some v) w = print (warmed v) (set first_user v w)

abbrev pub warm_cache : Found contracts → Shared → Option Err × Shared
warm_cache (missing e) w = (some e, w)
warm_cache (impl db) w =
    let w1 = print providing_cache (warm (query first_user) (record w { cache_db = some db })) in
    let (e, r) = provide contracts cache_contract w1.registry cache_value in
    (e, record w1 { registry = r })

unfoldable pub start_cache : Shared → Option Err × Shared
unfolding require query set provide
start_cache w = warm_cache (require contracts db_contract w.registry) w

-- The hooks of the worker. Its goroutine ends when the `Done` channel is closed, and closes `done`.
unfoldable pub start_worker : Shared → Option Err × Shared
start_worker w = (none, record w { workers = w.workers + 1 })

abbrev pub settled : Bool → Shared → Shared
settled false w = w
settled true w = record w { workers = 0; closes = w.closes + w.workers }

abbrev pub await_done : Shared → Shared
await_done w = if w.closes == 0 then record w { stuck = true } else w

unfoldable pub drain_worker : Shared → Option Err × Shared
drain_worker w = (none, print drained (await_done (settled w.shut_down w)))

-- The hook of the api module.
abbrev pub say_missing : Option Name → Shared → Shared
say_missing none w = print second_not_found w
say_missing (some v) w = w

abbrev pub say_first : Option Name → Shared → Shared
say_first none w = w
say_first (some v) w = print (read_first v) w

abbrev pub read_users : Shared → Shared
read_users w =
    let (v, w1) = get_user first_user w in
    let (v', w2) = get_user second_user (say_first v w1) in say_missing v' w2

abbrev pub with_both : Found contracts → Found contracts → Shared → Option Err × Shared
with_both (missing e) db w = (some e, w)
with_both (impl cache) (missing e) w = (some e, w)
with_both (impl cache) (impl db) w = (none, read_users w)

unfoldable pub start_api : Shared → Option Err × Shared
unfolding require get_user
start_api w =
    with_both (require contracts cache_contract w.registry)
      (require contracts db_contract w.registry) w
