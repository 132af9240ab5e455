-- ===== src/Examples/Startup.antt =====
-- Loading a configuration and starting the program.
use strike_reserve.Base.{ℕ, suc, String, Bool, true, not, ◌≡◌, refl, none, some, List, [], ◌∷◌, ◌*◌}
use strike_reserve.Base.Int.{ℤ, pos}
use strike_reserve.Config.{
  Config, Checks, Tag, required, gt, gte, lte, min, oneof, validate, valid_app, valid_services,
  valid_page, valid_database, valid_conn, valid_retry, valid_redis,
}
use strike_reserve.Config.Loading.{ViperLib, loaded, load}
use strike_reserve.Config.Valid.{IsDocumented, Sound, load-Sound, at_least, at_most, is_zero}
use strike_reserve.Database.{Pgx, value, connect_with_config}
use strike_reserve.Container.{Resources, new_container}
use strike_reserve.Container.Calls.{
  get_handler, get_database, get_cache, get_echo_server, perform_all,
}
use strike_reserve.Container.Holds.{Registered, AndThen}
use strike_reserve.Container.Once.{perform_all-Registered}
use strike_reserve.Database.{Migrations, migrate, settings, no_change}
use strike_reserve.Program.{main}
use strike_reserve.Program.Ends.{ended, main_ends}
use strike_reserve.Examples.{a_day}
use strike_reserve.Examples.Server.{server}

abbrev int_check : Tag → ℤ → Bool
int_check required z = not (is_zero z)
int_check (gt n) z = at_least (suc n) z
int_check (gte n) z = at_least n z
int_check (lte n) z = at_most n z
int_check (min n) z = at_least n z
int_check (oneof texts) z = true

abbrev pub checks : Checks ℕ
checks = record { int = int_check; float = λ t n. true; string = λ t s. true; bytes = λ t s. true }

pub checks-IsDocumented : IsDocumented checks
checks-IsDocumented = record {
  required = λ z. refl;
  gt = λ n z. refl;
  gte = λ n z. refl;
  lte = λ n z. refl;
}

abbrev second : ℕ
second = 1000000000

abbrev pub config : Config ℕ
config = record {
  app = record {
    port = pos 8080;
    log_level = "info";
    is_prod = true;
    migration_dir = "./migrations";
    shutdown_timeout = pos (30 * second);
    services = record {
      auth = record { secret_key = b'k' ∷ []; token_duration = pos a_day };
      conference = record { port = pos 9090; request_timeout = pos (5 * second) };
      slot_generator = record { look_ahead = pos 14; interval = pos a_day };
      slot_duration = pos (1800 * second);
      password_cost = pos 12;
    };
    page = record { default = 1; min = 1; size = record { default = 20; max = 100; min = 1 } };
  };
  database = record {
    dsn = "postgres";
    conn = record {
      max = pos 20;
      min = pos 5;
      max_life_time = pos (1800 * second);
      max_idle_time = pos (300 * second);
      connect_timeout = pos (5 * second);
    };
  };
  retry = record {
    backoff = "exponential";
    base = pos second;
    factor = 2;
    max = pos (30 * second);
    max_attempts = pos 5;
    jitter = 0;
  };
  redis = record {
    host = "redis";
    port = pos 6379;
    password = "secret";
    db = pos 0;
    size = pos 100;
    duration = pos (30 * second);
  };
}

-- A file is its path, and holds this configuration.
abbrev pub viper : ViperLib ℕ
viper = record {
  File = String;
  no_file = "";
  read_in_config = λ v. some v.config_file;
  unmarshal = λ v file. some config;
}

pub config_loaded : load viper checks "config.yaml" ≡ loaded config
unfolding load validate valid_app valid_services valid_page valid_database valid_conn valid_retry
    valid_redis
config_loaded = refl

load-Sound_example : Sound config
load-Sound_example = load-Sound viper checks "config.yaml" config checks-IsDocumented config_loaded

-- A pool is its DSN.
abbrev pub pgx : Pgx String
pgx = record {
  new = value;
  parse_config = λ dsn. value (record {
    dsn = dsn;
    max_conns = pos 4;
    min_conns = pos 0;
    max_conn_lifetime = pos 0;
    max_conn_idle_time = pos 0;
    connect_timeout = pos 0;
  });
  new_with_config = λ c. value c.dsn;
  ping = λ p. none;
}

abbrev resources : Resources (List String)
resources = record {
  close_database = λ log. "Database" ∷ log;
  close_redis = λ log. (none, "Redis" ∷ log);
  shutdown_echo = λ log. (some "deadline", "Echo server" ∷ log);
  start_echo = none;
}

perform_all-Registered_example : AndThen Registered (
    perform_all resources pgx server.bcrypt config
      (get_handler ∷ get_database ∷ get_cache ∷ get_echo_server ∷ get_handler ∷ [])
      new_container)
perform_all-Registered_example =
    perform_all-Registered resources pgx server.bcrypt config
      (get_handler ∷ get_database ∷ get_cache ∷ get_echo_server ∷ get_handler ∷ [])

abbrev migrations : Migrations String
migrations = record { new = λ dir dsn. value dsn; up = λ m. some no_change }

main_ends_example :
    main resources pgx migrations server.bcrypt viper checks "config.yaml" []
    ≡ ended resources pgx migrations server.bcrypt viper checks config [] none
unfolding migrate connect_with_config settings
main_ends_example =
    main_ends resources pgx migrations server.bcrypt viper checks "config.yaml" config "postgres" []
      refl config_loaded refl refl
