-- ===== src/Service/Timetable.antt =====
-- The timetable that app/internal/service/lane.go and service/slot_generator.go fill: every slot stands in
-- turn within the hours of its lane's schedule, as the row of the schedule is read.
pub mod Filling
use strike_reserve.Base.{
  ℕ, ◌+◌, ◌*◌, ◌≤◌, ◌<◌, ◌≡◌, refl, sym, ap, subst, ◌∙◌, Bool, List, [], ◌∷◌, ◌++◌, some, first,
  All, All-imp, arith, ◌==◌, any, map,
}
use strike_reserve.Clock.{at_time}
use strike_reserve.Models.{Slot, User, Lane, Booking, Schedule}
use strike_reserve.Models.Hms.{Text, TimeOfDay, time_or_zero, parse_hms}
use strike_reserve.Db.{
  Db, ScheduleRow, Effect, done, violates, no_row, insert_user, insert_lane, insert_booking,
}
use strike_reserve.World.{Env}
use strike_reserve.Exec.Keeps.{After}
use strike_reserve.Repository.Keeping.{Joining, Closed, After-map_effect}
use strike_reserve.Repository.Bookings.{set_cancelled}
use strike_reserve.Repository.Users.{upsert_user}
use strike_reserve.Repository.Schedules.{schedule_of, scanned}

module _ {C : Type 0} (env : Env C) where
  abbrev pub opening : ScheduleRow → TimeOfDay
  opening row = time_or_zero (scanned env (env.time_out row.start_time))

  abbrev pub closing : ScheduleRow → TimeOfDay
  closing row = time_or_zero (scanned env (env.time_out row.end_time))

module _ {C : Type 0} (env : Env C) (d : ℕ) where
  -- The slot has the length d, and starts a number of whole slots behind the opening time of its
  -- lane's schedule and ends by the closing time, on one day.
  pub record Placed (schedules : List ScheduleRow) (s : Slot) : Type 0 where
    pub row : ScheduleRow
    pub found : first (λ r. r.lane_id == s.lane_id) schedules ≡ some row
    pub closes : s.end_time ≤ at_time s.start_time (closing env row).hour (closing env row).minute
    pub length : s.end_time ≡ s.start_time + d
    pub turn : ℕ
    pub start :
        s.start_time
        ≡ at_time s.start_time (opening env row).hour (opening env row).minute + turn * d

  pub record Timetable (db : Db) : Type 0 where
    pub placed : All (Placed db.schedules) db.slots

-- Slots and schedules are these.
record Beside (slots : List Slot) (schedules : List ScheduleRow) (db : Db) : Type 0 where
  slots_eq : db.slots ≡ slots
  schedules_eq : db.schedules ≡ schedules

module _ (slots : List Slot) (schedules : List ScheduleRow) where
  user-Beside :
      (u : User) (db : Db)
      → Beside slots schedules db
      → After (Beside slots schedules) (insert_user u db)
  unfolding insert_user
  user-Beside u db h = ground arith

  lane-Beside :
      (l : Lane) (db : Db)
      → Beside slots schedules db
      → After (Beside slots schedules) (insert_lane l db)
  unfolding insert_lane
  lane-Beside l db h = ground arith

  booking-Beside :
      (b : Booking) (db : Db)
      → Beside slots schedules db
      → After (Beside slots schedules) (insert_booking b db)
  unfolding insert_booking
  booking-Beside b db h = ground arith

  upsert-Beside :
      (u : User) (db : Db)
      → Beside slots schedules db
      → After (Beside slots schedules) (upsert_user u db)
  unfolding upsert_user
  upsert-Beside u db h = ground (
    arith,
    After-map_effect (Beside slots schedules) (λ (x : Unit {0}). u.created_at) (insert_user u db)
        (user-Beside u db h),
  )

module _ {C : Type 0} (env : Env C) (d : ℕ) where
  Timetable-Beside :
      (db db' : Db) → Timetable env d db → Beside db.slots db.schedules db' → Timetable env d db'
  Timetable-Beside db db' t b = record {
    placed =
        subst (λ xs. All (Placed env d db'.schedules) xs) (sym b.slots_eq)
          (subst (λ ys. All (Placed env d ys) db.slots) (sym b.schedules_eq) t.placed);
  }

  After-Beside :
      {A : Type 0} (db : Db) (e : Effect A)
      → Timetable env d db
      → After (Beside db.slots db.schedules) e
      → After (Timetable env d) e
  After-Beside db (done a db') t h = Timetable-Beside db db' t h
  After-Beside db (violates v) t h = tt
  After-Beside db no_row t h = tt

  pub Timetable-Closed : Closed (Timetable env d)
  Timetable-Closed = record {
    joining = record {
      user = λ u db t. After-Beside db (insert_user u db) t (
          user-Beside db.slots db.schedules u db (record { slots_eq = refl; schedules_eq = refl }));
      lane = λ l db t. After-Beside db (insert_lane l db) t (
          lane-Beside db.slots db.schedules l db (record { slots_eq = refl; schedules_eq = refl }));
    };
    booking = λ b db t. After-Beside db (insert_booking b db) t (
        booking-Beside db.slots db.schedules b db
          (record { slots_eq = refl; schedules_eq = refl }));
    upsert = λ u db t. After-Beside db (upsert_user u db) t (
        upsert-Beside db.slots db.schedules u db (record { slots_eq = refl; schedules_eq = refl }));
    cancelled = λ id db t. record { placed = t.placed };
  }
