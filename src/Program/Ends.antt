-- ===== src/Program/Ends.antt =====
-- The end of a run of app/cmd/main.go.
use strike_reserve.Base.{String, ◌≡◌, refl, ap, ◌∙◌, false, Option, none, some, str_eq}
use strike_reserve.Closer.Order.{run_all, backwards}
use strike_reserve.Config.{Config, Checks}
use strike_reserve.Config.Loading.{ViperLib, loaded, load}
use strike_reserve.Database.{Pgx, Migrations, migrate, value, connect_with_config}
use strike_reserve.Service.Users.{Bcrypt}
use strike_reserve.Container.{Container, Resources, and_then, listening, new_app, run_app}
use strike_reserve.Container.Startup.{resources, running, started-value, running-Running}
use strike_reserve.Program.{Exit, fatal, main, stopped, shut_down, run_on, migrated, configured}

module _ {W P M F : Type 0} (res : Resources W) (pgx : Pgx P) (migrations : Migrations M)
    (bcrypt : Bcrypt) (lib : ViperLib F) (v : Checks F) where
  run_on-shut_down :
      (cfg : Config F) (w : W) (o : Option (Container W))
      → run_on res pgx migrations bcrypt lib v cfg w o
        ≡ shut_down res pgx migrations bcrypt lib v w (and_then o (run_app res pgx bcrypt cfg))
  run_on-shut_down cfg w none = refl
  run_on-shut_down cfg w (some c) = refl

  main-configured :
      (path : String) (w : W)
      → str_eq path "" ≡ false
      → main res pgx migrations bcrypt lib v path w
        ≡ configured res pgx migrations bcrypt lib v w (load lib v path)
  unfolding main
  main-configured path w h = rw h refl

  -- The end of a run that has come to the start of the server, by the error of that start.
  abbrev pub ended : Config F → W → Option String → Exit W
  ended cfg w (some e) = fatal
  ended cfg w none =
      stopped (some (run_all (backwards (resources res pgx bcrypt cfg)) w).0)
        (run_all (backwards (resources res pgx bcrypt cfg)) w).1

  after_start :
      (cfg : Config F) (w : W) (f : Option String)
      → shut_down res pgx migrations bcrypt lib v w
          (listening res pgx bcrypt cfg f (running res pgx bcrypt cfg))
        ≡ ended cfg w f
  after_start cfg w (some e) = refl
  after_start cfg w none =
      ap (λ x. stopped x.0 x.1.1) ((running-Running res pgx bcrypt cfg).shuts_down w)

  -- A run with a configuration that can be loaded, on a database that can be migrated and connected
  -- to, ends in one of two ways. Where the server starts, it ends by closing the server, the Redis
  -- client and the pool, in this order and each once, with the errors of all three. Where the server
  -- fails to start, log.Fatal ends the process, and nothing is closed.
  pub main_ends :
      (path : String) (cfg : Config F) (db : P) (w : W)
      → str_eq path "" ≡ false
      → load lib v path ≡ loaded cfg
      → migrate migrations cfg.app.migration_dir cfg.database.dsn ≡ none
      → connect_with_config pgx cfg.database ≡ value db
      → main res pgx migrations bcrypt lib v path w ≡ ended cfg w res.start_echo
  main_ends path cfg db w h l m c =
      main-configured path w h
      ∙ ap (configured res pgx migrations bcrypt lib v w) l
      ∙ ap (migrated res pgx migrations bcrypt lib v cfg w) m
      ∙ run_on-shut_down cfg w (new_app res pgx bcrypt cfg)
      ∙ ap (shut_down res pgx migrations bcrypt lib v w) (started-value res pgx bcrypt cfg db c)
      ∙ after_start cfg w res.start_echo
