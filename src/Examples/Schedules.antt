-- ===== src/Examples/Schedules.antt =====
-- A schedule that is made, one that is refused, and a round of the generator that adds nothing.
use strike_reserve.Base.{refl, ◌≡◌, ◌+◌, ◌*◌, [], ◌∷◌}
use strike_reserve.Models.{Schedule}
use strike_reserve.Models.Hms.{parse_hms, from_hm_to_hms, time_or_zero, scan, value}
use strike_reserve.Models.Hms.RoundTrip.{display}
use strike_reserve.Errors.{wrap_db_error}
use strike_reserve.Db.{ScheduleRow, insert_schedule, insert_slot}
use strike_reserve.World.{World}
use strike_reserve.Exec.{ok, ◌>>=◌, on_error, attempt, query, at_tick, now}
use strike_reserve.Exec.Tx.{atomic, atomic-IsTransactional}
use strike_reserve.Repository.Sql.{select_one}
use strike_reserve.Repository.Slots.{create_slots, insert_slots}
use strike_reserve.Repository.Lanes
use strike_reserve.Repository.Schedules
use strike_reserve.Repository.Schedules.{insert_statement, schedule_of}
use strike_reserve.Service.Generation.{
  schedule_slots, slots_of_days, slots_of_day, slots_between, slots_until, allowed_days,
  lookahead_slots, build_slots_for_day, allowed_weekday,
}
use strike_reserve.Service.Lanes.{LaneConfig, generate, create_schedule, create_schedule_in_tx}
use strike_reserve.Service.Lanes.Scheduling.{Scheduled, create_schedule_success}
use strike_reserve.Service.Generator.{GeneratorConfig, generate_lane}
use strike_reserve.Service.Generator.Repeats.{ahead, generate_lane-Repeats}
use strike_reserve.Examples.{Held, env, world, slot, schedule, a_day, an_hour}

abbrev config : LaneConfig
config = record { slot_duration = an_hour; slot_generation_days = 8 }

abbrev no_slots : World Held
no_slots = record (world []) { db = record (world []).db { slots = [] } }

abbrev made : World Held
made = (create_schedule env atomic config schedule no_slots).1

abbrev stored : Schedule
stored = record schedule { id = 1003; created_at = env.now 2 }

scheduled : create_schedule env atomic config schedule no_slots ≡ (ok stored, made)
unfolding create_schedule create_schedule_in_tx ◌>>=◌ on_error attempt query at_tick now select_one
    Lanes.get Schedules.get_by_lane_id Schedules.create insert_statement insert_schedule generate
    schedule_slots slots_of_days slots_of_day slots_between slots_until allowed_days time_or_zero
    parse_hms create_slots insert_slots insert_slot value wrap_db_error
scheduled = refl

create_schedule_success_example :
    Scheduled env config schedule no_slots.db made.db × (made.cache ≡ [])
create_schedule_success_example =
    create_schedule_success env atomic atomic-IsTransactional config schedule stored no_slots made
      scheduled

abbrev row : ScheduleRow
row = record {
  id = 5;
  lane_id = 3;
  days_of_week = 1 ∷ [];
  start_time = 600;
  end_time = 720;
  created_at = 0;
}

-- The slot at ten on the Monday is there already.
abbrev monday : World Held
monday = record (world []) {
  db = record (world []).db {
    schedules = row ∷ [];
    slots =
        record slot { start_time = 7 * a_day + 10 * an_hour; end_time = 7 * a_day + 11 * an_hour }
        ∷ [];
  };
}

abbrev generator : GeneratorConfig
generator = record { slot_duration = an_hour; lookahead = 8 }

generate_lane-Repeats_example : (generate_lane env generator 3 monday).1.db ≡ monday.db
unfolding ahead lookahead_slots build_slots_for_day allowed_weekday slots_of_day slots_between
    slots_until time_or_zero parse_hms schedule_of scan from_hm_to_hms display
generate_lane-Repeats_example = generate_lane-Repeats env generator 3 row monday refl refl
