-- ===== src/Db/Intact.antt =====
-- The integrity that the schema of migrations/001_init.up.sql promises, and that each kind of
-- write keeps it.
use strike_reserve.Base.{
  ◌<◌, ◌≡◌, Bool, true, List, [], ◌∷◌, ◌++◌, arith, All, All-append, All-imp, Apart,
  Apart-append_one, any, any-append_one, ◌==◌,
}
use strike_reserve.Models.{User, Lane, Slot, Booking}
use strike_reserve.Db.{
  Db, ScheduleRow, has_user, has_lane, has_slot, users_clash, lanes_clash, schedules_clash,
  slots_clash, bookings_clash, insert_user, insert_lane, insert_schedule, insert_slot,
  insert_booking, empty_db,
}
use strike_reserve.Exec.Keeps.{After}

pub record Intact (db : Db) : Type 0 where
  pub users : Apart users_clash db.users
  pub lanes : Apart lanes_clash db.lanes
  pub schedules : Apart schedules_clash db.schedules
  pub slots : Apart slots_clash db.slots
  pub bookings : Apart bookings_clash db.bookings
  pub schedule_lane : All (λ r. has_lane r.lane_id db ≡ true) db.schedules
  pub schedule_span : All (λ r. r.start_time < r.end_time) db.schedules
  pub slot_lane : All (λ s. has_lane s.lane_id db ≡ true) db.slots
  pub slot_span : All (λ s. s.start_time < s.end_time) db.slots
  pub booking_user : All (λ b. has_user b.user_id db ≡ true) db.bookings
  pub booking_slot : All (λ b. has_slot b.slot_id db.slots ≡ true) db.bookings

pub Intact-empty : Intact empty_db
Intact-empty = record {
  users = tt;
  lanes = tt;
  schedules = tt;
  slots = tt;
  bookings = tt;
  schedule_lane = tt;
  schedule_span = tt;
  slot_lane = tt;
  slot_span = tt;
  booking_user = tt;
  booking_slot = tt;
}

-- A row that is there stays there when rows are added behind it.
any_grows {ℓ} :
    {A : Type ℓ} (p : A → Bool) (xs : List A) (x : A)
    → any p xs ≡ true
    → any p (xs ++ x ∷ []) ≡ true
any_grows p xs x h = rw any-append_one (ground arith)

pub insert_user-Intact : (u : User) (db : Db) → Intact db → After Intact (insert_user u db)
unfolding insert_user
insert_user-Intact u db i = ground (
  arith,
  Apart-append_one users_clash db.users u i.users,
  All-imp (λ (b : Booking). has_user b.user_id db ≡ true)
      (λ (b : Booking). any (λ (v : User). v.id == b.user_id) (db.users ++ u ∷ []) ≡ true)
      (λ b. any_grows (λ v. v.id == b.user_id) db.users u) db.bookings i.booking_user,
)

pub insert_lane-Intact : (l : Lane) (db : Db) → Intact db → After Intact (insert_lane l db)
unfolding insert_lane
insert_lane-Intact l db i = ground (
  arith,
  Apart-append_one lanes_clash db.lanes l i.lanes,
  All-imp (λ (r : ScheduleRow). has_lane r.lane_id db ≡ true)
      (λ (r : ScheduleRow). any (λ (m : Lane). m.id == r.lane_id) (db.lanes ++ l ∷ []) ≡ true)
      (λ r. any_grows (λ m. m.id == r.lane_id) db.lanes l) db.schedules i.schedule_lane,
  All-imp (λ (r : Slot). has_lane r.lane_id db ≡ true)
      (λ (r : Slot). any (λ (m : Lane). m.id == r.lane_id) (db.lanes ++ l ∷ []) ≡ true)
      (λ r. any_grows (λ m. m.id == r.lane_id) db.lanes l) db.slots i.slot_lane,
)

pub insert_schedule-Intact :
    (s : ScheduleRow) (db : Db) → Intact db → After Intact (insert_schedule s db)
unfolding insert_schedule
insert_schedule-Intact s db i = ground (
  arith,
  Apart-append_one schedules_clash db.schedules s i.schedules,
  All-append (λ (r : ScheduleRow). has_lane r.lane_id db ≡ true) db.schedules (s ∷ [])
      i.schedule_lane,
  All-append (λ (r : ScheduleRow). r.start_time < r.end_time) db.schedules (s ∷ []) i.schedule_span,
)

pub insert_slot-Intact : (s : Slot) (db : Db) → Intact db → After Intact (insert_slot s db)
unfolding insert_slot
insert_slot-Intact s db i = ground (
  arith,
  Apart-append_one slots_clash db.slots s i.slots,
  All-append (λ (r : Slot). has_lane r.lane_id db ≡ true) db.slots (s ∷ []) i.slot_lane,
  All-append (λ (r : Slot). r.start_time < r.end_time) db.slots (s ∷ []) i.slot_span,
  All-imp (λ (b : Booking). has_slot b.slot_id db.slots ≡ true)
      (λ (b : Booking). has_slot b.slot_id (db.slots ++ s ∷ []) ≡ true)
      (λ b. any_grows (λ r. r.id == b.slot_id) db.slots s) db.bookings i.booking_slot,
)

pub insert_booking-Intact : (b : Booking) (db : Db) → Intact db → After Intact (insert_booking b db)
unfolding insert_booking
insert_booking-Intact b db i = ground (
  arith,
  Apart-append_one bookings_clash db.bookings b i.bookings,
  All-append (λ c. has_user c.user_id db ≡ true) db.bookings (b ∷ []) i.booking_user,
  All-append (λ c. has_slot c.slot_id db.slots ≡ true) db.bookings (b ∷ []) i.booking_slot,
)
