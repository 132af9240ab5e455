-- ===== src/Container/Startup.antt =====
-- The program of app/internal/app from `NewApp` to `Shutdown`.
use strike_reserve.Base.{
  ℕ, ◌≡◌, refl, ap, ◌∙◌, ◌<◌, String, true, Option, none, some, List, [], ◌∷◌, All,
}
use strike_reserve.Base.Int.{ℤ, pos, negsuc}
use strike_reserve.Models.{Schedule}
use strike_reserve.Models.Hms.{time_or_zero}
use strike_reserve.World.{Env}
use strike_reserve.Closer.{CloseFn, new_closer}
use strike_reserve.Closer.Order.{run_all, backwards, add_all, close_all-backwards}
use strike_reserve.Config.{Config, Checks}
use strike_reserve.Config.Loading.{ViperLib, load, loaded}
use strike_reserve.Config.Valid.{IsDocumented, load-Sound, Positive, positive}
use strike_reserve.Database.{Pgx, Fallible, value, error, connect_with_config}
use strike_reserve.Service.Users.{Bcrypt, password_cost}
use strike_reserve.Service.Lanes.{plan}
use strike_reserve.Service.Generation.{schedule_slots, allowed_days}
use strike_reserve.Service.Generation.Days.{OnPlan, schedule_slots-OnPlan}
use strike_reserve.Container.{
  Container, Resources, database, user_repository, lane_repository, schedule_repository,
  slot_repository, booking_repository, redis, cache, auth_service, user_service, lane_service,
  booking_service, slot_generator, echo_server, handler, listening, and_then, new_app, run_app,
  close,
}
use strike_reserve.Config.Settings.{
  magnitude, auth_config, lane_config, generator_config, page_config,
}

module _ {W P F : Type 0} (res : Resources W) (pgx : Pgx P) (bcrypt : Bcrypt) (cfg : Config F) where
  -- In the order in which they are opened.
  abbrev pub resources : List (CloseFn W)
  resources =
      record { name = "Database"; fn = λ w. (none, res.close_database w) }
      ∷ record { name = "Redis"; fn = res.close_redis }
      ∷ record { name = "Echo server"; fn = res.shutdown_echo }
      ∷ []

  -- The program as it runs, with what the configuration says.
  pub record Running (c : Container W) : Type 0 where
    pub auth : c.auth_service ≡ some (auth_config cfg)
    pub users :
        c.user_service ≡ some (password_cost bcrypt (magnitude cfg.app.services.password_cost))
    pub lanes : c.lane_service ≡ some (lane_config cfg)
    pub generator : c.sg ≡ some (generator_config cfg)
    pub pages : c.handler ≡ some (page_config cfg)
    -- `Shutdown` closes each resource once, the last that was opened first.
    pub shuts_down :
        (w : W)
        → close c w ≡ (
          some (run_all (backwards resources) w).0,
          (
            record c { closer = record { once = true; fns = [] } },
            (run_all (backwards resources) w).1,
          ),
        )

  -- By what the connection to the database and the start of the server come to.
  abbrev pub Starts : Fallible P → Option String → Option (Container W) → Type 0
  Starts (error e) failure o = o ≡ none
  Starts (value db) (some e) o = o ≡ none
  Starts (value db) none o = (c : Container W) × (o ≡ some c) × Running c

  abbrev pub started : Option (Container W)
  started = and_then (new_app res pgx bcrypt cfg) (run_app res pgx bcrypt cfg)

  started-error : (e : String) → connect_with_config pgx cfg.database ≡ error e → started ≡ none
  unfolding new_app run_app database user_repository lane_repository schedule_repository
      slot_repository booking_repository redis cache auth_service user_service lane_service
      booking_service slot_generator echo_server handler
  started-error e h = rw h refl

  abbrev pub running : Container W
  running = record {
    closer = add_all resources new_closer;
    db = true;
    rdb = true;
    r = true;
    user_repo = true;
    lane_repo = true;
    schedule_repo = true;
    slot_repo = true;
    booking_repo = true;
    slots_cache = true;
    auth_service = some (auth_config cfg);
    user_service = some (password_cost bcrypt (magnitude cfg.app.services.password_cost));
    lane_service = some (lane_config cfg);
    booking_service = true;
    sg = some (generator_config cfg);
    handler = some (page_config cfg);
  }

  pub started-value :
      (db : P)
      → connect_with_config pgx cfg.database ≡ value db
      → started ≡ listening res pgx bcrypt cfg res.start_echo running
  unfolding new_app run_app database user_repository lane_repository schedule_repository
      slot_repository booking_repository redis cache auth_service user_service lane_service
      booking_service slot_generator echo_server handler add_all
  started-value db h = rw h refl

  pub running-Running : Running running
  unfolding close
  running-Running = record {
    auth = refl;
    users = refl;
    lanes = refl;
    generator = refl;
    pages = refl;
    shuts_down = λ w. rw (close_all-backwards resources w) refl;
  }

  starts :
      (o : Fallible P) (f : Option String)
      → connect_with_config pgx cfg.database ≡ o
      → res.start_echo ≡ f
      → Starts o f started
  starts (error e) f h k = started-error e h
  starts (value db) (some e) h k =
      started-value db h ∙ ap (λ x. listening res pgx bcrypt cfg x running) k
  starts (value db) none h k = (
    running,
    started-value db h ∙ ap (λ x. listening res pgx bcrypt cfg x running) k,
    running-Running,
  )

  -- The start of the program ends the process where the database cannot be connected to, or the server
  -- does not start. Otherwise each component has the numbers that the configuration gives it, and
  -- shutting down closes the server, the Redis client and the pool, in this order, each once, whatever
  -- errors there are.
  started-Starts : Starts (connect_with_config pgx cfg.database) res.start_echo started
  started-Starts = starts (connect_with_config pgx cfg.database) res.start_echo refl refl

-- A number that is positive stays so.
pub magnitude_positive : (z : ℤ) → Positive z → 0 < magnitude z
magnitude_positive (pos n) (positive h) = h
magnitude_positive (negsuc n) h = elim h [ ]

module _ {F C : Type 0} (lib : ViperLib F) (v : Checks F) (d : IsDocumented v) (env : Env C) where
  -- With a configuration that was loaded, no hypothesis on the length of slots is needed: all the
  -- slots that a schedule gets lie within its hours on its days, each of the configured length; if
  -- the validator does with whole numbers what it documents.
  pub load-OnPlan :
      (path : String) (cfg : Config F) (lane_id : ℕ) (sch : Schedule) (days now n : ℕ)
      → load lib v path ≡ loaded cfg
      → All
          (OnPlan
            (plan env (lane_config cfg) lane_id)
            (allowed_days sch.days_of_week)
            (time_or_zero sch.start_time)
            (time_or_zero sch.end_time))
          (schedule_slots (plan env (lane_config cfg) lane_id) sch days now n)
  unfolding lane_config
  load-OnPlan path cfg lane_id sch days now n h =
      schedule_slots-OnPlan (plan env (lane_config cfg) lane_id) sch days now n (
        magnitude_positive cfg.app.services.slot_duration
          (load-Sound lib v path cfg d h).slot_duration)
