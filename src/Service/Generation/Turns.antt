-- ===== src/Service/Generation/Turns.antt =====
-- Where the loops of service/lane.go and service/slot_generator.go place the slots of a day: at whole
-- multiples of the slot's length behind the opening time.
use strike_reserve.Base.{
  ℕ, zero, suc, ◌+◌, ◌-◌, ◌*◌, ◌/◌, ◌≤◌, ◌<◌, ◌≡◌, refl, [], arith, leb, All, All-append, All-imp,
  Bool, Bool-cases, leb→le, inl, inr, true, false, if◌then◌else◌,
}
use strike_reserve.Clock.{at_time, day_ns}
use strike_reserve.Models.{Slot, Schedule}
use strike_reserve.Models.Hms.{TimeOfDay, time_or_zero}
use strike_reserve.Service.Generation.{
  Plan, slots_between, slots_of_day, slots_of_days, schedule_slots, allowed_days, allowed_weekday,
  build_slots_for_day, lookahead_slots,
}
use strike_reserve.Service.Generation.Grid.{grid, fits_none, slots_between-grid}
use strike_reserve.Service.Generation.Days.{same_day, time_of_day}

module _ (p : Plan) where
  -- A slot of the lane in turn behind an opening instant, closed by another.
  record OnGrid (from to : ℕ) (s : Slot) : Type 0 where
    lane : s.lane_id ≡ p.lane_id
    closes : s.end_time ≤ to
    length : s.end_time ≡ s.start_time + p.slot_duration
    turn : ℕ
    start : s.start_time ≡ from + turn * p.slot_duration

  -- The same by the hours of its own day.
  pub record InTurn (from to : TimeOfDay) (s : Slot) : Type 0 where
    pub lane : s.lane_id ≡ p.lane_id
    pub closes : s.end_time ≤ at_time s.start_time to.hour to.minute
    pub length : s.end_time ≡ s.start_time + p.slot_duration
    pub turn : ℕ
    pub start : s.start_time ≡ at_time s.start_time from.hour from.minute + turn * p.slot_duration

  grid-OnGrid :
      (k j n t from to : ℕ)
      → t ≡ from + j * p.slot_duration
      → t + k * p.slot_duration ≤ to
      → All (OnGrid from to) (grid p k n t)
  unfolding grid
  grid-OnGrid zero j n t from to e h = tt
  grid-OnGrid (suc k) j n t from to e h = (
    record { lane = refl; closes = grind arith; length = refl; turn = j; start = e },
    grid-OnGrid k (suc j) (suc n) (t + p.slot_duration) from to (grind arith) (grind arith),
  )

  slots_between-OnGrid :
      (to n from : ℕ) → 0 < p.slot_duration → All (OnGrid from to) (slots_between p to n from)
  unfolding grid
  slots_between-OnGrid to n from d = elim (Bool-cases (leb from to)) [
    | inl k ↦
        let le = leb→le from to k in
        rw (slots_between-grid p to n from d)
          (grid-OnGrid ((to - from) / p.slot_duration) 0 n from from to (omega arith) (grind arith))
    | inr k ↦
        let none : (to - from) / p.slot_duration ≡ 0 =
          fits_none p.slot_duration to from (ground arith) d in
        rw (slots_between-grid p to n from d, none) tt
  ]

  slots_of_day-InTurn :
      (from to : TimeOfDay) (day n : ℕ)
      → 0 < p.slot_duration
      → to.hour < 24
      → to.minute < 60
      → All (InTurn from to) (slots_of_day p from to day n)
  unfolding slots_of_day
  slots_of_day-InTurn from to day n d h m =
      All-imp _ _
        (λ s g.
          let e =
            same_day day s.start_time (omega (arith, g.start))
              (omega (arith, g.closes, g.length)) in
          record {
            lane = g.lane;
            closes = rw e g.closes;
            length = g.length;
            turn = g.turn;
            start = rw e g.start;
          })
        _
        (slots_between-OnGrid (at_time day to.hour to.minute) n (at_time day from.hour from.minute)
          d)

  today-InTurn :
      (b : Bool) (from to : TimeOfDay) (day n : ℕ)
      → 0 < p.slot_duration
      → to.hour < 24
      → to.minute < 60
      → All (InTurn from to) (if b then slots_of_day p from to day n else [])
  today-InTurn true from to day n d h m = slots_of_day-InTurn from to day n d h m
  today-InTurn false from to day n d h m = tt

  slots_of_days-InTurn :
      (allowed : ℕ → Bool) (from to : TimeOfDay) (days day n : ℕ)
      → 0 < p.slot_duration
      → to.hour < 24
      → to.minute < 60
      → All (InTurn from to) (slots_of_days p allowed from to days day n)
  unfolding slots_of_days
  slots_of_days-InTurn allowed from to zero day n d h m = tt
  slots_of_days-InTurn allowed from to (suc days) day n d h m =
      All-append (InTurn from to) _ _ (today-InTurn (allowed day) from to day n d h m)
        (slots_of_days-InTurn allowed from to days (day + day_ns) _ d h m)

  pub schedule_slots-InTurn :
      (sch : Schedule) (days now n : ℕ)
      → 0 < p.slot_duration
      → All
          (InTurn (time_or_zero sch.start_time) (time_or_zero sch.end_time))
          (schedule_slots p sch days now n)
  unfolding schedule_slots
  schedule_slots-InTurn sch days now n d =
      slots_of_days-InTurn (allowed_days sch.days_of_week) _ _ days now n d
        (time_of_day sch.end_time).0 (time_of_day sch.end_time).1

  pub lookahead_slots-InTurn :
      (sch : Schedule) (days day n : ℕ)
      → 0 < p.slot_duration
      → All
          (InTurn (time_or_zero sch.start_time) (time_or_zero sch.end_time))
          (lookahead_slots p sch days day n)
  unfolding lookahead_slots build_slots_for_day
  lookahead_slots-InTurn sch zero day n d = tt
  lookahead_slots-InTurn sch (suc days) day n d =
      All-append (InTurn (time_or_zero sch.start_time) (time_or_zero sch.end_time)) _ _
        (today-InTurn (allowed_weekday sch.days_of_week day) _ _ day n d
          (time_of_day sch.end_time).0 (time_of_day sch.end_time).1)
        (lookahead_slots-InTurn sch days (day + day_ns) _ d)
