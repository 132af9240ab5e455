-- ===== src/Service/Generation.antt =====
-- The loops of service/lane.go and service/slot_generator.go that cut working hours into slots.
pub mod Grid
pub mod Days
pub mod Rounds
pub mod Sundays
pub mod Turns
use strike_reserve.Base.{
  ℕ, zero, suc, ◌+◌, ◌-◌, ◌%◌, Bool, List, [], ◌∷◌, ◌++◌, any, length, leb, ◌==◌, if◌then◌else◌,
}
use strike_reserve.Clock.{at_time, weekday, day_ns}
use strike_reserve.Models.{Slot, Schedule}
use strike_reserve.Models.Hms.{TimeOfDay, time_or_zero}

-- What the loops read of their surroundings: the identifiers, the lane, the length of a slot.
pub record Plan : Type 0 where
  pub uuid : ℕ → ℕ
  pub lane_id : ℕ
  pub slot_duration : ℕ

module _ (p : Plan) where
  abbrev pub slot_at : ℕ → ℕ → Slot
  slot_at n t = record {
    id = p.uuid n;
    lane_id = p.lane_id;
    start_time = t;
    end_time = t + p.slot_duration;
  }

  -- for t := curStart; !t.Add(d).After(curEnd); t = t.Add(d): rounds left, end, identifiers used, t.
  unfoldable pub slots_until : ℕ → ℕ → ℕ → ℕ → List Slot
  slots_until zero end n t = []
  slots_until (suc rounds) end n t =
      let more = slot_at n t ∷ slots_until rounds end (suc n) (t + p.slot_duration) in
      if leb (t + p.slot_duration) end then more else []

  -- A round moves t by at least a nanosecond, so this many rounds are enough.
  unfoldable pub slots_between : ℕ → ℕ → ℕ → List Slot
  unfolding slots_until
  slots_between end n t = slots_until (suc (end - t)) end n t

  unfoldable pub slots_of_day : TimeOfDay → TimeOfDay → ℕ → ℕ → List Slot
  unfolding slots_between
  slots_of_day from to day n =
      slots_between (at_time day to.hour to.minute) n (at_time day from.hour from.minute)

  -- `for day := now; day.Before(endDate); day = day.AddDate(0, 0, 1)`, by the days left.
  unfoldable pub slots_of_days : (ℕ → Bool) → TimeOfDay → TimeOfDay → ℕ → ℕ → ℕ → List Slot
  unfolding slots_of_day
  slots_of_days allowed from to zero day n = []
  slots_of_days allowed from to (suc days) day n =
      let today : List Slot = if allowed day then slots_of_day from to day n else [] in
      today ++ slots_of_days allowed from to days (day + day_ns) (n + length today)

-- allowedDays[day%7], at the day's number from Sunday
unfoldable pub allowed_days : List ℕ → ℕ → Bool
allowed_days days day = any (λ d. d % 7 == weekday day) days

-- d == int(date.Weekday())
unfoldable pub allowed_weekday : List ℕ → ℕ → Bool
allowed_weekday days day = any (λ d. d == weekday day) days

-- The slots that `CreateSchedule` makes.
unfoldable pub schedule_slots : Plan → Schedule → ℕ → ℕ → ℕ → List Slot
unfolding allowed_days slots_of_days time_or_zero
schedule_slots p sch days now n =
    slots_of_days p (allowed_days sch.days_of_week) (time_or_zero sch.start_time)
      (time_or_zero sch.end_time) days now n

-- buildSlotsForDay
unfoldable pub build_slots_for_day : Plan → Schedule → ℕ → ℕ → List Slot
unfolding allowed_weekday slots_of_day time_or_zero
build_slots_for_day p sch date n =
    if allowed_weekday sch.days_of_week date
    then slots_of_day p (time_or_zero sch.start_time) (time_or_zero sch.end_time) date n
    else []

-- The loop over the days ahead in `GenerateAll`.
unfoldable pub lookahead_slots : Plan → Schedule → ℕ → ℕ → ℕ → List Slot
unfolding build_slots_for_day
lookahead_slots p sch zero d n = []
lookahead_slots p sch (suc days) d n =
    let today : List Slot = build_slots_for_day p sch d n in
    today ++ lookahead_slots p sch days (d + day_ns) (n + length today)
