-- ===== src/Program.antt =====
-- app/cmd/main.go: from the path of the configuration to the end of the process. `Run` goes on to
-- `Shutdown` when a signal has ended its context.
pub mod Ends
pub mod Serving
use strike_reserve.Base.{
  String, Bool, true, false, List, [], ◌∷◌, Option, none, some, str_eq, if◌then◌else◌,
}
use strike_reserve.Config.{Config, Checks}
use strike_reserve.Config.Loading.{ViperLib, Loaded, loaded, failed, load}
use strike_reserve.Database.{Pgx, Migrations, migrate}
use strike_reserve.Service.Users.{Bcrypt}
use strike_reserve.Container.{Container, Resources, new_app, run_app, close}

-- How the process ends: by a panic, by log.Fatal, or after a shutdown, with the errors that it joined
-- (`none` where the closer itself panics) and the outside as it leaves it.
pub data Exit (W : Type 0) : Type 0 where
  panicked : Exit W
  fatal : Exit W
  stopped : Option (List String) → W → Exit W

module _ {W P M F : Type 0} (res : Resources W) (pgx : Pgx P) (migrations : Migrations M)
    (bcrypt : Bcrypt) (lib : ViperLib F) (v : Checks F) where
  -- What `Run` ends with, in a world that the requests have left; `none` is a log.Fatal on the way, of a
  -- getter or of the server that does not start.
  abbrev pub shut_down : W → Option (Container W) → Exit W
  shut_down w none = fatal
  shut_down w (some c) = let (errs, rest) = close c w in stopped errs rest.1

  abbrev pub run_on : Config F → W → Option (Container W) → Exit W
  run_on cfg w none = fatal
  run_on cfg w (some c) = shut_down w (run_app res pgx bcrypt cfg c)

  abbrev pub migrated : Config F → W → Option String → Exit W
  migrated cfg w (some e) = fatal
  migrated cfg w none = run_on cfg w (new_app res pgx bcrypt cfg)

  abbrev pub configured : W → Loaded F → Exit W
  configured w (failed e) = panicked
  configured w (loaded cfg) =
      migrated cfg w (migrate migrations cfg.app.migration_dir cfg.database.dsn)

  -- main, by the environment variable CONFIG_PATH ("" where it is not set)
  unfoldable pub main : String → W → Exit W
  unfolding close new_app run_app migrate load
  main path w = if str_eq path "" then panicked else configured w (load lib v path)
