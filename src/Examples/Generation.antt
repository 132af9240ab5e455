-- ===== src/Examples/Generation.antt =====
-- The theorems about the slot loops of app/internal/service at one schedule.
use strike_reserve.Base.{length, ◌-◌, ◌*◌, ◌/◌, ◌≡◌, refl, [], ◌∷◌, All, arith}
use strike_reserve.Models.{Schedule}
use strike_reserve.Models.Hms.{time_or_zero}
use strike_reserve.Service.Generation.{
  Plan, slots_until, schedule_slots, allowed_days, build_slots_for_day, lookahead_slots,
}
use strike_reserve.Service.Generation.Rounds.{Halts, slots_until-Halts}
use strike_reserve.Service.Generation.Days.{OnPlan, schedule_slots-OnPlan}
use strike_reserve.Service.Generation.Sundays.{
  generator_skips_sunday, lookahead_slots-eq-schedule_slots,
}
use strike_reserve.Examples.{a_day, an_hour, schedule}

abbrev plan : Plan
plan = record { uuid = λ n. n; lane_id = 3; slot_duration = an_hour }

abbrev mondays : Schedule
mondays = record schedule { days_of_week = 1 ∷ [] }

schedule_slots-OnPlan_example :
    All
      (OnPlan plan
        (allowed_days (1 ∷ 7 ∷ []))
        (time_or_zero schedule.start_time)
        (time_or_zero schedule.end_time))
      (schedule_slots plan schedule 8 (5 * a_day) 0)
schedule_slots-OnPlan_example = schedule_slots-OnPlan plan schedule 8 (5 * a_day) 0 (ground arith)

generator_skips_sunday_example : build_slots_for_day plan schedule (6 * a_day) 0 ≡ []
generator_skips_sunday_example =
    generator_skips_sunday plan schedule (6 * a_day) 0
      ((ground arith, ground arith), ((ground arith, ground arith), tt)) refl

lookahead_slots-eq-schedule_slots_example :
    lookahead_slots plan mondays 8 (5 * a_day) 0 ≡ schedule_slots plan mondays 8 (5 * a_day) 0
lookahead_slots-eq-schedule_slots_example =
    lookahead_slots-eq-schedule_slots plan mondays 8 (5 * a_day) 0
      ((ground arith, ground arith), tt)

slots_until-Halts_example :
    Halts an_hour
      (12 * an_hour)
      (10 * an_hour)
      (length (slots_until plan (3 * an_hour) (12 * an_hour) 0 (10 * an_hour)))
    × (length (slots_until plan (3 * an_hour) (12 * an_hour) 0 (10 * an_hour))
        ≡ (12 * an_hour - 10 * an_hour) / an_hour)
slots_until-Halts_example =
    slots_until-Halts plan (3 * an_hour) (12 * an_hour) 0 (10 * an_hour) (ground arith)
      (ground arith)
