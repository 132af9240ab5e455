-- ===== src/Examples/Seed.antt =====
-- The script with one user, one lane, and two days.
use strike_reserve.Base.{ℕ, String, some, ap, ◌*◌, ◌≡◌, refl, false, []}
use strike_reserve.Db.{
  empty_db, insert_user, insert_lane, insert_schedule, insert_slot, insert_booking,
}
use strike_reserve.Clock.{safe_truncate}
use strike_reserve.Errors.{wrap_db_error}
use strike_reserve.Models.{lane_type_valid, role_valid}
use strike_reserve.Models.Hms.{parse_hms, value, time_or_zero}
use strike_reserve.Repository.Sql.{select_one, order_by}
use strike_reserve.Repository.Bookings as BookingRows
use strike_reserve.Repository.Users as UserRows
use strike_reserve.Repository.Lanes as LaneRows
use strike_reserve.Repository.Schedules as ScheduleRows
use strike_reserve.Repository.Schedules.{insert_statement, schedule_of}
use strike_reserve.Repository.Slots as SlotRows
use strike_reserve.Repository.Slots.{
  insert_slots, available_slots, is_available, is_booked, by_start,
}
use strike_reserve.Service.Bookings
use strike_reserve.Service.Bookings.{create_in_tx, forget_slot}
use strike_reserve.Service.Cache.{lookup, store, invalidate_slots_cache}
use strike_reserve.Service.Generation.{
  schedule_slots, slots_of_days, slots_of_day, slots_between, slots_until, allowed_days,
}
use strike_reserve.Service.Lanes
use strike_reserve.Service.Lanes.{generate, create_schedule_in_tx}
use strike_reserve.Service.Users
use strike_reserve.Service.Users.{hash_password, password_cost}
use strike_reserve.World.{Env, World}
use strike_reserve.Exec.{ok, ◌>>=◌, on_error, attempt, query, at_tick, new_id, now}
use strike_reserve.Exec.Tx.{atomic, atomic-IsTransactional}
use strike_reserve.Seed.{
  SeedLib, Wanted, Progress, seed_with, create_users, create_lanes, book_slots, book_lanes,
  book_days, lane_type_of,
}
use strike_reserve.Seed.Start.{
  Script, with_lru, seed_lib, first_world, ended, main, Done, seed_main-Done,
}
use strike_reserve.Base.Int.{pos}
use strike_reserve.Config.{
  Config, validate, valid_app, valid_services, valid_page, valid_database, valid_conn, valid_retry,
  valid_redis,
}
use strike_reserve.Config.Loading.{ViperLib, load}
use strike_reserve.Database.{connect}
use strike_reserve.InMemory
use strike_reserve.InMemory.{new_in_memory_lru_cache}
use strike_reserve.Examples.Startup.{config, checks, pgx}
use strike_reserve.Examples.{Held, env, an_hour}
use strike_reserve.Examples.Server.{server}

abbrev few : Wanted
few = record { user_count = 1; room_to_create = 1; target_bookings = 1; days = 2 }

abbrev script : Script Held
script = record {
  env = env;
  lru = record {
    empty = λ size duration. [];
    find = env.cache_get;
    put = env.cache_set;
    remove = env.cache_delete;
  };
  tx = atomic;
  bcrypt = server.bcrypt;
  rng = record { intn = λ k n. 0; above = λ k. false };
  decimal = λ n. "1";
}

-- The configuration with slots of half a day, so that there are few.
abbrev half_days : Config ℕ
half_days = record config {
  app = record config.app {
    services = record config.app.services { slot_duration = pos (12 * an_hour) };
  };
}

abbrev half_day_viper : ViperLib ℕ
half_day_viper = record {
  File = String;
  no_file = "";
  read_in_config = λ v. some v.config_file;
  unmarshal = λ v file. some half_days;
}

abbrev start : World Held
unfolding new_in_memory_lru_cache
start = first_world script half_days empty_db

abbrev lib : SeedLib Held
unfolding password_cost
lib = seed_lib script half_days

abbrev cached : Env Held
unfolding InMemory.get InMemory.set InMemory.delete
cached = with_lru script.lru env

abbrev after : World Held
after = (seed_with cached lib few start).1

abbrev progress : Progress
progress = record { booking_count = 1; draws = 3 }

seeded : seed_with cached lib few start ≡ (ok progress, after)
unfolding seed_with create_users create_lanes book_slots book_lanes book_days lane_type_of
    Users.register hash_password UserRows.create insert_user new_id now query attempt on_error ◌>>=◌
    at_tick Lanes.create_lane LaneRows.create LaneRows.get insert_lane Lanes.create_schedule
    create_schedule_in_tx Lanes.get_available_slots ScheduleRows.get_by_lane_id ScheduleRows.create
    insert_statement insert_schedule generate schedule_slots slots_of_days slots_of_day
    slots_between slots_until allowed_days time_or_zero parse_hms SlotRows.create_slots insert_slots
    insert_slot value wrap_db_error select_one lane_type_valid role_valid
    SlotRows.get_available_by_lane_and_date available_slots order_by lookup store Bookings.create
    create_in_tx SlotRows.get_by_id BookingRows.create insert_booking forget_slot
    invalidate_slots_cache safe_truncate cached lib start
seeded = refl

seed_main-Done_example :
    Done script pgx half_day_viper checks few "postgres" empty_db progress after
unfolding main connect load validate valid_app valid_services valid_page valid_database valid_conn
    valid_retry valid_redis new_in_memory_lru_cache password_cost InMemory.get InMemory.set
    InMemory.delete
seed_main-Done_example =
    seed_main-Done script pgx half_day_viper checks few "postgres" empty_db progress after
      atomic-IsTransactional (ap ended seeded)
