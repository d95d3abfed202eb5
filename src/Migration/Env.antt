-- ===== src/Migration/Env.antt =====
-- alembic/env.py: how the migrations are run, on a database or into a script. Alembic's context and
-- the migrations are parameters, and so are the options of a ConfigParser: `set_main_option` raises
-- for a value with a `%` that is no interpolation.
use task_mgt_app.Base.{
  String, Bool, true, false, Option, none, some, List, [], ◌∷◌, append, if◌then◌else◌,
}
use task_mgt_app.Base.Dict.{Dict, lookup}
use task_mgt_app.Settings.{Settings}

-- `context.config`: the options of the main section, and the name of the file.
pub record Config : Type 0 where
  pub options : Dict String
  pub config_file_name : Option String

-- `context.configure(…)`; `target_metadata` is the metadata of the models in both calls.
pub data Configured : Type 0 where
  with_url : (url : Option String) (literal_binds : Bool) (paramstyle : String) → Configured
  with_connection : Configured

-- What the script does besides the migrations themselves, in order.
pub data Event : Type 0 where
  logging_configured : String → Event
  context_configured : Configured → Event
  engine_created : Dict String → Event
  connected disconnected disposed : Event
  begun written committed rolled_back : Event

-- How the script ends: the database, the events, and whether it has raised.
pub record Ended (S : Type 0) : Type 0 where
  pub database : S
  pub events : List Event
  pub raised : Bool

abbrev pub before : {S : Type 0} → List Event → Ended S → Ended S
before l e = record e { events = append l e.events }

-- The two statements at the top: the URL of the settings, and logging by the file.
module _ (set_main_option : String → String → Dict String → Option (Dict String)) where
  abbrev pub with_options : Config → Option (Dict String) → Option Config
  with_options config none = none
  with_options config (some options) = some (record config { options = options })

  unfoldable pub start : Settings → Config → Option Config
  start settings config =
      with_options config (set_main_option "sqlalchemy.url" settings.database_url config.options)

abbrev pub file_config : Option String → List Event
file_config none = []
file_config (some name) = logging_configured name ∷ []

module _ {S : Type 0} (migrations : S → Option S) where
  -- `with context.begin_transaction(): context.run_migrations()` on a connection.
  abbrev pub ended_transaction : S → Option S → Ended S
  ended_transaction s none = record { database = s; events = rolled_back ∷ []; raised = true }
  ended_transaction s (some s') = record { database = s'; events = committed ∷ []; raised = false }

  unfoldable pub do_run_migrations : S → Ended S
  do_run_migrations s =
      before (context_configured with_connection ∷ begun ∷ []) (ended_transaction s (migrations s))

  -- `async with connectable.connect()`, and what follows the block where it has not raised.
  abbrev pub leave : Ended S → Ended S
  leave e = record e {
    events = append e.events (if e.raised then disconnected ∷ [] else disconnected ∷ disposed ∷ []);
  }

  -- Given whether the database can be reached.
  unfoldable pub run_async_migrations : Config → Bool → S → Ended S
  unfolding do_run_migrations
  run_async_migrations config true s =
      before (engine_created config.options ∷ connected ∷ []) (leave (do_run_migrations s))
  run_async_migrations config false s = record {
    database = s;
    events = engine_created config.options ∷ [];
    raised = true;
  }

  unfoldable pub run_migrations_online : Config → Bool → S → Ended S
  unfolding run_async_migrations
  run_migrations_online config reachable s = run_async_migrations config reachable s

  -- The migrations are written as SQL; no database is asked.
  unfoldable pub run_migrations_offline : Config → S → Ended S
  unfolding lookup
  run_migrations_offline config s = record {
    database = s;
    events =
        context_configured (with_url (lookup "sqlalchemy.url" config.options) true "named")
        ∷ begun
        ∷ written
        ∷ committed
        ∷ [];
    raised = false;
  }

  abbrev pub run_configured : Option Config → (offline reachable : Bool) → S → Ended S
  run_configured none offline reachable s = record { database = s; events = []; raised = true }
  run_configured (some config) offline reachable s = before (file_config config.config_file_name) (
      if offline then run_migrations_offline config s else run_migrations_online config reachable s)

  -- The module, given `context.is_offline_mode()`.
  unfoldable pub run_env :
      (String → String → Dict String → Option (Dict String))
      → Settings
      → Config
      → (offline reachable : Bool) → S
      → Ended S
  unfolding start run_migrations_offline run_migrations_online
  run_env set_main_option settings config = run_configured (start set_main_option settings config)
