-- ===== src/Service/Generation/Days.antt =====
-- The loop over days of service/lane.go: which slots a schedule gets.
use strike_reserve.Base.{
  ℕ, zero, suc, ◌+◌, ◌≤◌, ◌<◌, ◌≡◌, Bool, true, List, arith, All, All-append, All-imp, Bool-cases,
  inl, inr,
}
use strike_reserve.Clock.{day_of, midnight, at_time, day_ns}
use strike_reserve.Models.{Slot, Schedule}
use strike_reserve.Models.Hms.{Text, TimeOfDay, time_or_zero, parse_hms}
use strike_reserve.Service.Generation.{Plan, slots_of_days, schedule_slots, allowed_days}
use strike_reserve.Service.Generation.Grid.{LiesIn, slots_between-LiesIn}

-- A time of day that was read, or the zero time, is one of the day.
pub time_of_day : (t : Text) → ((time_or_zero t).hour < 24) × ((time_or_zero t).minute < 60)
unfolding time_or_zero parse_hms
time_of_day t = ground arith

-- An instant within working hours of a day is on that day.
pub same_day : (day t : ℕ) → midnight day ≤ t → t < midnight day + day_ns → day_of t ≡ day_of day
same_day day t h k = omega arith

module _ (p : Plan) where
  -- A slot that keeps to its plan: its own day is allowed, and it lies within that day's hours.
  pub record OnPlan (allowed : ℕ → Bool) (from to : TimeOfDay) (s : Slot) : Type 0 where
    pub allowed_day : allowed s.start_time ≡ true
    pub opens : at_time s.start_time from.hour from.minute ≤ s.start_time
    pub closes : s.end_time ≤ at_time s.start_time to.hour to.minute
    pub duration : s.end_time ≡ s.start_time + p.slot_duration

  day-OnPlan :
      (days : List ℕ) (from to : TimeOfDay) (day : ℕ)
      → 0 < p.slot_duration
      → to.hour < 24
      → to.minute < 60
      → allowed_days days day ≡ true
      → (s : Slot) → LiesIn p (at_time day from.hour from.minute) (at_time day to.hour to.minute) s
      → OnPlan (allowed_days days) from to s
  unfolding allowed_days
  day-OnPlan days from to day d h m a s l =
      let e = same_day day s.start_time (omega arith) (omega arith) in
      record { allowed_day = rw e a; opens = rw e l.0; closes = rw e l.1; duration = l.2 }

  slots_of_days-OnPlan :
      (c : List ℕ) (from to : TimeOfDay) (days day n : ℕ)
      → 0 < p.slot_duration
      → to.hour < 24
      → to.minute < 60
      → All (OnPlan (allowed_days c) from to) (slots_of_days p (allowed_days c) from to days day n)
  unfolding slots_of_days
  slots_of_days-OnPlan c from to zero day n d h m = tt
  slots_of_days-OnPlan c from to (suc days) day n d h m =
      All-append (OnPlan (allowed_days c) from to) _ _
        (elim (Bool-cases (allowed_days c day)) [
          | inl a ↦ rw a (
              All-imp _ _ (day-OnPlan c from to day d h m a) _ (
                slots_between-LiesIn p (at_time day to.hour to.minute) n
                  (at_time day from.hour from.minute) d))
          | inr a ↦ rw a tt
        ])
        (slots_of_days-OnPlan c from to days (day + day_ns) _ d h m)

  -- For a positive slot duration every slot that `CreateSchedule` makes is on a day of the schedule,
  -- within the schedule's hours of that very day, and of the planned length.
  pub schedule_slots-OnPlan :
      (sch : Schedule) (days now n : ℕ)
      → 0 < p.slot_duration
      → All
          (OnPlan
            (allowed_days sch.days_of_week)
            (time_or_zero sch.start_time)
            (time_or_zero sch.end_time))
          (schedule_slots p sch days now n)
  unfolding schedule_slots
  schedule_slots-OnPlan sch days now n d =
      slots_of_days-OnPlan sch.days_of_week (time_or_zero sch.start_time)
        (time_or_zero sch.end_time) days now n d (time_of_day sch.end_time).0
        (time_of_day sch.end_time).1
