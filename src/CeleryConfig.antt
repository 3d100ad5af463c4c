-- ===== src/CeleryConfig.antt =====
-- _internal/services/celery_config.py: the queues of all dumpers in the queue tables of their Celery apps.
--
-- The contact to a broker (_internal/contacts) has an implementation for each kind of broker, and is a
-- parameter: the definition that it makes of a queue, and what the broker is told when a definition is
-- declared. A queue table is a dict by name. Each BlockDumper has a Celery app of its own.
pub mod Laws
use abstract_block_dumper.Prelude.{
  String, Bool, true, false, Option, none, some, List, ◌∷◌, [], Dict, lookup, insert, str_eq, ℕ,
  map, any, is_some, if◌then◌else◌, Result, returned, raises,
}
use abstract_block_dumper.Queue.{Queue}

-- `kombu.Queue`: its name, and the options that the broker's arguments derive from.
pub record KombuQueue : Type 0 where
  pub name : String
  pub options : String

abbrev pub Table : Type 0
Table = Dict KombuQueue

abbrev pub Installed : Type 0
Installed = Table × Result (List KombuQueue)

abbrev pub put_first : KombuQueue → Installed → Installed
put_first q (table, returned queues) = (table, returned (q ∷ queues))
put_first q (table, raises) = (table, raises)

-- A definition whose name the table knows: `rest` is the run over the later ones.
abbrev pub keep_existing :
    (KombuQueue → String) → Table → KombuQueue → KombuQueue → Installed → Installed
keep_existing declared_arguments table definition existing rest =
    if str_eq (declared_arguments existing) (declared_arguments definition)
    then put_first existing rest
    else (table, raises)

-- `install_queues`
unfoldable pub install_queues : (KombuQueue → String) → Table → List KombuQueue → Installed
install_queues declared_arguments table [] = (table, returned [])
install_queues declared_arguments table (definition ∷ rest) = elim (lookup definition.name table) [
  | none ↦
      put_first definition
        (install_queues declared_arguments (insert definition.name definition table) rest)
  | some existing ↦
      keep_existing declared_arguments table definition existing
        (install_queues declared_arguments table rest)
]

-- The contact to the broker of an app, as `broker_contact_factory` gives it.
pub record Contact : Type 0 where
  pub queue_definition : Queue → KombuQueue
  pub declared_arguments : KombuQueue → String

-- A dumper: its queues, the contact of its app, unless that raises, and the queue table of the app.
pub record App : Type 0 where
  pub queues : List Queue
  pub contact : Option Contact
  pub table : Table

-- The apps, and for each the queues of its table.
abbrev pub Prepared : Type 0
Prepared = List App × Result (List (List KombuQueue))

-- What follows an installation: an exception leaves the later apps as they are.
abbrev put_app : App → Installed → Prepared → List App → Prepared
put_app app (table, raises) later rest = (record app { table = table } ∷ rest, raises)
put_app app (table, returned queues) (apps, raises) rest =
    (record app { table = table } ∷ apps, raises)
put_app app (table, returned queues) (apps, returned prepared) rest =
    (record app { table = table } ∷ apps, returned (queues ∷ prepared))

abbrev install_app : App → Option Contact → Prepared → List App → Prepared
install_app app none later rest = (app ∷ rest, raises)
install_app app (some contact) later rest =
    put_app app
      (install_queues contact.declared_arguments app.table
        (map contact.queue_definition app.queues))
      later rest

unfoldable pub install_apps : List App → Prepared
unfolding install_queues
install_apps [] = ([], returned [])
install_apps (app ∷ rest) = let later = install_apps rest in install_app app app.contact later rest

abbrev pub has_throttled : List App → Bool
has_throttled apps = any (λ app. any (λ (q : Queue). is_some q.throttle) app.queues) apps

-- The answer of `throttle_poll_seconds`.
abbrev polled : Result ℕ → Prepared → List App → Prepared
polled raises prepared apps = (apps, raises)
polled (returned seconds) prepared apps = prepared

-- `prepare_block_dumpers`, up to the declarations: with a throttled queue, `throttle_poll_seconds`
-- is asked before any table changes.
unfoldable pub prepare_tables : List App → Result ℕ → Prepared
unfolding install_apps
prepare_tables apps poll_seconds =
    if has_throttled apps then polled poll_seconds (install_apps apps) apps else install_apps apps
