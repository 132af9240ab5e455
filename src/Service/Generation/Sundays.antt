-- ===== src/Service/Generation/Sundays.antt =====
-- The days of service/slot_generator.go against those of service/lane.go: a schedule counts Sunday
-- as 7, the generator compares with Go's weekday, which is 0 on a Sunday.
use strike_reserve.Base.{
  ℕ, zero, suc, ◌+◌, ◌≤◌, ◌<◌, ◌≡◌, refl, ap, false, List, [], ◌∷◌, ◌++◌, arith, All, if◌then◌else◌,
}
use strike_reserve.Clock.{weekday, day_ns}
use strike_reserve.Models.{Schedule}
use strike_reserve.Models.Hms.{time_or_zero}
use strike_reserve.Service.Generation.{
  Plan, slots_of_day, slots_of_days, schedule_slots, allowed_days, allowed_weekday,
  build_slots_for_day, lookahead_slots,
}

-- The days of a validated schedule: 1 (Monday) to 7 (Sunday).
abbrev pub ValidDays : List ℕ → Type 0
ValidDays days = All (λ d. (1 ≤ d) × (d ≤ 7)) days

weekday-lt : (t : ℕ) → weekday t < 7
weekday-lt t = omega arith

allowed-sunday :
    (days : List ℕ) (t : ℕ) → ValidDays days → weekday t ≡ 0 → allowed_weekday days t ≡ false
unfolding allowed_weekday
allowed-sunday [] t v s = refl
allowed-sunday (d ∷ days) t v s = ground (arith, allowed-sunday days t v.1)

-- The generator makes no slot on a Sunday, whatever valid days the schedule has.
pub generator_skips_sunday :
    (p : Plan) (sch : Schedule) (date n : ℕ)
    → ValidDays sch.days_of_week
    → weekday date ≡ 0
    → build_slots_for_day p sch date n ≡ []
unfolding build_slots_for_day
generator_skips_sunday p sch date n v s = rw (allowed-sunday sch.days_of_week date v s)

same_allowed :
    (days : List ℕ) (t : ℕ)
    → All (λ d. (1 ≤ d) × (d ≤ 6)) days
    → allowed_weekday days t ≡ allowed_days days t
unfolding allowed_weekday allowed_days
same_allowed [] t v = refl
same_allowed (d ∷ days) t v = ground (arith, same_allowed days t v.1)

same_today :
    (p : Plan) (sch : Schedule) (date n : ℕ)
    → All (λ d. (1 ≤ d) × (d ≤ 6)) sch.days_of_week
    → build_slots_for_day p sch date n ≡ (
        if allowed_days sch.days_of_week date
        then slots_of_day p (time_or_zero sch.start_time) (time_or_zero sch.end_time) date n
        else [])
unfolding build_slots_for_day
same_today p sch date n v = rw (same_allowed sch.days_of_week date v)

-- For a schedule without Sunday generator and `CreateSchedule` make the same slots.
pub lookahead_slots-eq-schedule_slots :
    (p : Plan) (sch : Schedule) (days now n : ℕ)
    → All (λ d. (1 ≤ d) × (d ≤ 6)) sch.days_of_week
    → lookahead_slots p sch days now n ≡ schedule_slots p sch days now n
unfolding lookahead_slots schedule_slots slots_of_days
lookahead_slots-eq-schedule_slots p sch zero now n v = refl
lookahead_slots-eq-schedule_slots p sch (suc days) now n v =
    rw (same_today p sch now n v)
      (ap (◌++◌ _) (lookahead_slots-eq-schedule_slots p sch days (now + day_ns) _ v))
