-- ===== src/Container.antt =====
-- app/internal/app/di.go: the components, each built where it is first asked for, from the
-- components that it needs; and what app.go asks for. A component that holds numbers of the
-- configuration is these numbers, and any other is whether it is there.
pub mod Startup
pub mod Holds
pub mod Once
pub mod Calls
use strike_reserve.Base.{
  ℕ, String, Bool, true, false, Option, none, some, List, [], ◌∷◌, if◌then◌else◌,
}
use strike_reserve.Base.Int.{ℤ, pos, negsuc}
use strike_reserve.Closer.{Closer, new_closer, add, close_all}
use strike_reserve.Config.{Config}
use strike_reserve.Config.Settings.{
  magnitude, auth_config, lane_config, generator_config, page_config,
}
use strike_reserve.Database.{Pgx, Fallible, value, error, connect_with_config}
use strike_reserve.Service.Auth.{AuthConfig}
use strike_reserve.Service.Lanes.{LaneConfig}
use strike_reserve.Service.Generator.{GeneratorConfig}
use strike_reserve.Service.Users.{Bcrypt, password_cost}
use strike_reserve.Handler.Bookings.{PageConfig}

-- What closing each resource does to the outside; closing the pool reports nothing. `start_echo` is
-- the error with which the server's `Start` ends before a shutdown, if it does.
pub record Resources (W : Type 0) : Type 0 where
  pub close_database : W → W
  pub close_redis : W → Option String × W
  pub shutdown_echo : W → Option String × W
  pub start_echo : Option String

-- diContainer
pub record Container (W : Type 0) : Type 0 where
  pub closer : Closer W
  pub db : Bool
  pub rdb : Bool
  pub r : Bool
  pub user_repo : Bool
  pub lane_repo : Bool
  pub schedule_repo : Bool
  pub slot_repo : Bool
  pub booking_repo : Bool
  pub slots_cache : Bool
  pub auth_service : Option AuthConfig
  pub user_service : Option ℕ
  pub lane_service : Option LaneConfig
  pub booking_service : Bool
  pub sg : Option GeneratorConfig
  pub handler : Option PageConfig

abbrev pub is_some : {A : Type 0} → Option A → Bool
is_some none = false
is_some (some a) = true

-- A call of a getter; `none` where the process ends by log.Fatal.
abbrev pub Getter : Type 0 → Type 0
Getter W = Container W → Option (Container W)

infixl 5 ◌then_get◌
abbrev pub and_then : {W : Type 0} → Option (Container W) → Getter W → Option (Container W)
and_then none g = none
and_then (some c) g = g c

abbrev pub ◌then_get◌ : {W : Type 0} → Getter W → Getter W → Getter W
◌then_get◌ f g c = and_then (f c) g

-- if c.x == nil { … }
abbrev pub unless : {W : Type 0} → (Container W → Bool) → Getter W → Getter W
unless there build c = if there c then some c else build c

abbrev pub keep : {W : Type 0} → (Container W → Container W) → Getter W
keep f c = some (f c)

module _ {W : Type 0} where
  -- newDIContainer
  abbrev pub new_container : Container W
  new_container = record {
    closer = new_closer;
    db = false;
    rdb = false;
    r = false;
    user_repo = false;
    lane_repo = false;
    schedule_repo = false;
    slot_repo = false;
    booking_repo = false;
    slots_cache = false;
    auth_service = none;
    user_service = none;
    lane_service = none;
    booking_service = false;
    sg = none;
    handler = none;
  }

module _ {W P F : Type 0} (res : Resources W) (pgx : Pgx P) (bcrypt : Bcrypt) (cfg : Config F) where
  abbrev pub connected : Fallible P → Getter W
  connected (error e) c = none
  connected (value db) c =
      some (record c {
        db = true;
        closer = add "Database" (λ w. (none, res.close_database w)) c.closer;
      })

  unfoldable pub database : Getter W
  unfolding add connect_with_config
  database = unless (λ c. c.db) (connected (connect_with_config pgx cfg.database))

  unfoldable pub user_repository : Getter W
  unfolding database
  user_repository =
      unless (λ c. c.user_repo) (database then_get keep (λ c. record c { user_repo = true }))

  unfoldable pub lane_repository : Getter W
  unfolding database
  lane_repository =
      unless (λ c. c.lane_repo) (database then_get keep (λ c. record c { lane_repo = true }))

  unfoldable pub schedule_repository : Getter W
  unfolding database
  schedule_repository =
      unless (λ c. c.schedule_repo)
        (database then_get keep (λ c. record c { schedule_repo = true }))

  unfoldable pub slot_repository : Getter W
  unfolding database
  slot_repository =
      unless (λ c. c.slot_repo) (database then_get keep (λ c. record c { slot_repo = true }))

  unfoldable pub booking_repository : Getter W
  unfolding database
  booking_repository =
      unless (λ c. c.booking_repo) (database then_get keep (λ c. record c { booking_repo = true }))

  unfoldable pub redis : Getter W
  unfolding add
  redis =
      unless (λ c. c.rdb)
        (keep (λ c. record c { rdb = true; closer = add "Redis" res.close_redis c.closer }))

  unfoldable pub cache : Getter W
  unfolding redis
  cache = unless (λ c. c.slots_cache) (redis then_get keep (λ c. record c { slots_cache = true }))

  unfoldable pub auth_service : Getter W
  unfolding auth_config
  auth_service =
      unless (λ c. is_some c.auth_service)
        (keep (λ c. record c { auth_service = some (auth_config cfg) }))

  unfoldable pub user_service : Getter W
  unfolding user_repository password_cost
  user_service =
      unless (λ c. is_some c.user_service)
        (user_repository
          then_get keep (λ c. record c {
            user_service = some (password_cost bcrypt (magnitude cfg.app.services.password_cost));
          }))

  unfoldable pub lane_service : Getter W
  unfolding lane_repository slot_repository schedule_repository database cache lane_config
  lane_service =
      unless (λ c. is_some c.lane_service)
        (lane_repository
          then_get slot_repository
          then_get schedule_repository
          then_get database
          then_get cache
          then_get keep (λ c. record c { lane_service = some (lane_config cfg) }))

  unfoldable pub booking_service : Getter W
  unfolding booking_repository slot_repository database lane_service
  booking_service =
      unless (λ c. c.booking_service)
        (booking_repository
          then_get slot_repository
          then_get database
          then_get lane_service
          then_get keep (λ c. record c { booking_service = true }))

  unfoldable pub slot_generator : Getter W
  unfolding lane_repository schedule_repository slot_repository generator_config
  slot_generator =
      unless (λ c. is_some c.sg)
        (lane_repository
          then_get schedule_repository
          then_get slot_repository
          then_get keep (λ c. record c { sg = some (generator_config cfg) }))

  unfoldable pub echo_server : Getter W
  unfolding add
  echo_server =
      unless (λ c. c.r)
        (keep (λ c. record c { r = true; closer = add "Echo server" res.shutdown_echo c.closer }))

  unfoldable pub handler : Getter W
  unfolding booking_service lane_service user_service auth_service page_config
  handler =
      unless (λ c. is_some c.handler)
        (booking_service
          then_get lane_service
          then_get user_service
          then_get auth_service
          then_get keep (λ c. record c { handler = some (page_config cfg) }))

  -- NewApp
  unfoldable pub new_app : Option (Container W)
  unfolding handler echo_server auth_service
  new_app = (handler then_get echo_server then_get auth_service) new_container

  -- `if err := …; err != nil && !errors.Is(err, http.ErrServerClosed)`: log.Fatal, with nothing closed.
  abbrev pub listening : Option String → Getter W
  listening none c = some c
  listening (some e) c = none

  -- Run, up to the signal.
  unfoldable pub run_app : Getter W
  unfolding slot_generator echo_server
  run_app = slot_generator then_get echo_server then_get listening res.start_echo

-- Close, which `Shutdown` calls: the joined errors, and the outside.
unfoldable pub close : {W : Type 0} → Container W → W → Option (List String) × (Container W × W)
unfolding close_all
close c w =
    let (errs, rest) = close_all c.closer w in (errs, (record c { closer = rest.0 }, rest.1))
