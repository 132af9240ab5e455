-- ===== src/Container/Once.antt =====
-- That app/internal/app/di.go hands each resource to the closer once, however often and in whatever
-- order its getters are called.
use strike_reserve.Base.{◌≡◌, refl, false, List, [], ◌∷◌}
use strike_reserve.Config.{Config}
use strike_reserve.Database.{Pgx, Fallible, value, error, connect_with_config}
use strike_reserve.Service.Users.{Bcrypt}
use strike_reserve.Container.{
  Container, Resources, new_container, connected, database, user_repository, lane_repository,
  schedule_repository, slot_repository, booking_repository, redis, cache, auth_service,
  user_service, lane_service, booking_service, slot_generator, echo_server, handler,
}
use strike_reserve.Container.Calls.{
  get_database, get_user_repository, get_lane_repository, get_schedule_repository,
  get_slot_repository, get_booking_repository, get_redis, get_cache, get_auth_service,
  get_user_service, get_lane_service, get_booking_service, get_slot_generator, get_echo_server,
  get_handler, Call, perform, perform_all,
}
use strike_reserve.Container.Holds.{
  times, Registered, AndThen, Holds, Holds-then_get, Registered-database, Registered-redis,
  Registered-echo, Holds-new, getter_rules,
}

module _ {W P F : Type 0} (res : Resources W) (pgx : Pgx P) (bcrypt : Bcrypt) (cfg : Config F) where
  opens_database :
      (o : Fallible P) (c : Container W)
      → c.db ≡ false
      → Registered c
      → AndThen Registered (connected res pgx bcrypt cfg o c)
  opens_database (error e) c k reg = tt
  opens_database (value p) c k reg = Registered-database _ c reg k

  Holds-database : Holds (database res pgx bcrypt cfg)
  unfolding database
  Holds-database = Holds-new _ _ (opens_database (connect_with_config pgx cfg.database))

  Holds-redis : Holds (redis res pgx bcrypt cfg)
  unfolding redis
  Holds-redis = Holds-new _ _ (λ c k reg. Registered-redis _ c reg k)

  Holds-echo_server : Holds (echo_server res pgx bcrypt cfg)
  unfolding echo_server
  Holds-echo_server = Holds-new _ _ (λ c k reg. Registered-echo _ c reg k)

  Holds-user_repository : Holds (user_repository res pgx bcrypt cfg)
  unfolding user_repository
  Holds-user_repository = search (getter_rules, Holds-database) depth 7

  Holds-lane_repository : Holds (lane_repository res pgx bcrypt cfg)
  unfolding lane_repository
  Holds-lane_repository = search (getter_rules, Holds-database) depth 7

  Holds-schedule_repository : Holds (schedule_repository res pgx bcrypt cfg)
  unfolding schedule_repository
  Holds-schedule_repository = search (getter_rules, Holds-database) depth 7

  Holds-slot_repository : Holds (slot_repository res pgx bcrypt cfg)
  unfolding slot_repository
  Holds-slot_repository = search (getter_rules, Holds-database) depth 7

  Holds-booking_repository : Holds (booking_repository res pgx bcrypt cfg)
  unfolding booking_repository
  Holds-booking_repository = search (getter_rules, Holds-database) depth 7

  Holds-cache : Holds (cache res pgx bcrypt cfg)
  unfolding cache
  Holds-cache = search (getter_rules, Holds-redis) depth 7

  Holds-auth_service : Holds (auth_service res pgx bcrypt cfg)
  unfolding auth_service
  Holds-auth_service = search getter_rules

  Holds-user_service : Holds (user_service res pgx bcrypt cfg)
  unfolding user_service
  Holds-user_service = search (getter_rules, Holds-user_repository) depth 7

  Holds-lane_service : Holds (lane_service res pgx bcrypt cfg)
  unfolding lane_service
  Holds-lane_service =
      search
        (
          getter_rules, Holds-lane_repository, Holds-slot_repository, Holds-schedule_repository,
          Holds-database, Holds-cache,
        )
        depth 11

  Holds-booking_service : Holds (booking_service res pgx bcrypt cfg)
  unfolding booking_service
  Holds-booking_service =
      search
        (
          getter_rules, Holds-booking_repository, Holds-slot_repository, Holds-database,
          Holds-lane_service,
        )
        depth 10

  Holds-slot_generator : Holds (slot_generator res pgx bcrypt cfg)
  unfolding slot_generator
  Holds-slot_generator =
      search (getter_rules, Holds-lane_repository, Holds-schedule_repository, Holds-slot_repository)
        depth 9

  Holds-handler : Holds (handler res pgx bcrypt cfg)
  unfolding handler
  Holds-handler =
      search
        (
          getter_rules, Holds-booking_service, Holds-lane_service, Holds-user_service,
          Holds-auth_service,
        )
        depth 10

  Holds-perform : (call : Call) → Holds (perform res pgx bcrypt cfg call)
  unfolding perform
  Holds-perform get_database = Holds-database
  Holds-perform get_user_repository = Holds-user_repository
  Holds-perform get_lane_repository = Holds-lane_repository
  Holds-perform get_schedule_repository = Holds-schedule_repository
  Holds-perform get_slot_repository = Holds-slot_repository
  Holds-perform get_booking_repository = Holds-booking_repository
  Holds-perform get_redis = Holds-redis
  Holds-perform get_cache = Holds-cache
  Holds-perform get_auth_service = Holds-auth_service
  Holds-perform get_user_service = Holds-user_service
  Holds-perform get_lane_service = Holds-lane_service
  Holds-perform get_booking_service = Holds-booking_service
  Holds-perform get_slot_generator = Holds-slot_generator
  Holds-perform get_echo_server = Holds-echo_server
  Holds-perform get_handler = Holds-handler

  Holds-perform_all : (calls : List Call) → Holds (perform_all res pgx bcrypt cfg calls)
  unfolding perform_all
  Holds-perform_all [] = record { at = λ c reg. reg }
  Holds-perform_all (call ∷ calls) =
      Holds-then_get _ _ (Holds-perform call) (Holds-perform_all calls)

  -- Whatever getters of a new container are called, in whatever order and however often: the closer
  -- then has the pool, the Redis client and the server, each once if it was opened, and nothing
  -- else, unless the process has ended.
  pub perform_all-Registered :
      (calls : List Call) → AndThen Registered (perform_all res pgx bcrypt cfg calls new_container)
  unfolding times
  perform_all-Registered calls =
      (Holds-perform_all calls).at new_container
        (record { database = refl; redis = refl; echo = refl; all = refl })
