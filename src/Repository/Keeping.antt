-- ===== src/Repository/Keeping.antt =====
-- What the operations of app/internal/repository do to a property of the tables, whatever the driver and
-- the server answer: it is kept where it stands each change that a statement makes.
use strike_reserve.Base.{ℕ, List, [], ◌∷◌, map, Option, none, some, arith, String, Bool, first}
use strike_reserve.Models.{Booking, Slot, User, Lane, Schedule}
use strike_reserve.Db.{
  Db, Effect, done, violates, no_row, Violation, not_null, bad_time, insert_user, insert_lane,
  insert_booking, insert_schedule, ScheduleRow,
}
use strike_reserve.Models.Hms.{value}
use strike_reserve.World.{Env}
use strike_reserve.Exec.Keeps.{Keeps, After, keeps_rules, Keeps-query}
use strike_reserve.Repository.Sql.{select_one, one_row, map_effect, and_then}
use strike_reserve.Repository.Bookings
use strike_reserve.Repository.Bookings.{set_cancelled, list_statement}
use strike_reserve.Repository.Slots
use strike_reserve.Repository.Slots.{insert_slots}
use strike_reserve.Repository.Lanes
use strike_reserve.Repository.Schedules
use strike_reserve.Repository.Schedules.{insert_statement, need}
use strike_reserve.Repository.Users
use strike_reserve.Repository.Users.{set_role, upsert_user}

module _ {A B : Type 0} (P : Db → Type 0) where
  pub After-map_effect : (f : A → B) (e : Effect A) → After P e → After P (map_effect f e)
  After-map_effect f (done a db) h = h
  After-map_effect f (violates v) h = h
  After-map_effect f no_row h = h

  pub After-and_then :
      (e : Effect A) (k : Db → Effect B)
      → ((db : Db) → P db → After P (k db))
      → After P e
      → After P (and_then e k)
  After-and_then (done a db) k kk h = kk db h
  After-and_then (violates v) k kk h = h
  After-and_then no_row k kk h = h

module _ {A : Type 0} (P : Db → Type 0) where
  pub After-one_row : (o : Option A) (db : Db) → P db → After P (one_row o db)
  After-one_row none db h = tt
  After-one_row (some a) db h = h

  pub After-select_one :
      (p : A → Bool) (rows : List A) (db : Db) → P db → After P (select_one p rows db)
  unfolding select_one
  After-select_one p rows db h = After-one_row (first p rows) db h

  pub After-need :
      (o : Option A) (v : Violation) (k : A → Effect (Unit {0}))
      → ((a : A) → After P (k a))
      → After P (need o v k)
  After-need none v k h = tt
  After-need (some a) v k h = h a

-- A property of the tables that is kept where users and lanes are added.
pub record Joining (P : Db → Type 0) : Type 0 where
  pub user : (u : User) (db : Db) → P db → After P (insert_user u db)
  pub lane : (l : Lane) (db : Db) → P db → After P (insert_lane l db)

-- And where bookings are added, a booking is cancelled, and a user of the dummy login is added or updated.
pub record Closed (P : Db → Type 0) : Type 0 where
  pub joining : Joining P
  pub booking : (b : Booking) (db : Db) → P db → After P (insert_booking b db)
  pub upsert : (u : User) (db : Db) → P db → After P (upsert_user u db)
  pub cancelled :
      (id : ℕ) (db : Db) → P db → P (record db { bookings = map (set_cancelled id) db.bookings })

-- One that is kept where schedules and slots are added.
pub record Growing (P : Db → Type 0) : Type 0 where
  pub schedule : (r : ScheduleRow) (db : Db) → P db → After P (insert_schedule r db)
  pub slots : (slots : List Slot) (db : Db) → P db → After P (insert_slots slots db)

module _ (P : Db → Type 0) where
  list_statement-Keeps :
      (limit offset : ℕ) (db : Db) → P db → After P (list_statement limit offset db)
  unfolding list_statement
  list_statement-Keeps limit offset db i = ground arith

module _ {C : Type 0} {P : Db → Type 0} (env : Env C) (g : Growing P) where
  insert_statement-Keeps : (s : Schedule) (db : Db) → P db → After P (insert_statement env s db)
  unfolding insert_statement
  insert_statement-Keeps s db i = After-need P (value s.start_time) not_null _ λ _.
      After-need P _ bad_time _ λ _.
        After-need P (value s.end_time) not_null _
          λ _. After-need P _ bad_time _ λ _. g.schedule _ db i

ruleset integrity_rules =
    (keeps_rules, list_statement-Keeps, After-select_one, After-one_row, After-map_effect)

module _ {C : Type 0} {P : Db → Type 0} (env : Env C) where
  pub Bookings_get-Keeps : (id : ℕ) → Keeps P (Bookings.get env id)
  unfolding Bookings.get
  Bookings_get-Keeps id = search integrity_rules

  pub get_active_by_user_id-Keeps :
      (user_id : ℕ) → Keeps P (Bookings.get_active_by_user_id env user_id)
  unfolding Bookings.get_active_by_user_id
  get_active_by_user_id-Keeps user_id = search integrity_rules

  pub get_list-Keeps : (limit page : ℕ) → Keeps P (Bookings.get_list env limit page)
  unfolding Bookings.get_list
  get_list-Keeps limit page = search integrity_rules

  pub Slots_get_by_id-Keeps : (id : ℕ) → Keeps P (Slots.get_by_id env id)
  unfolding Slots.get_by_id
  Slots_get_by_id-Keeps id = search integrity_rules

  pub Slots_get_by_lane_id-Keeps : (id : ℕ) → Keeps P (Slots.get_by_lane_id env id)
  unfolding Slots.get_by_lane_id
  Slots_get_by_lane_id-Keeps id = search integrity_rules

  pub get_available-Keeps :
      (lane_id date : ℕ) → Keeps P (Slots.get_available_by_lane_and_date env lane_id date)
  unfolding Slots.get_available_by_lane_and_date
  get_available-Keeps lane_id date = search integrity_rules

  pub Lanes_get_all-Keeps : Keeps P (Lanes.get_all env)
  unfolding Lanes.get_all
  Lanes_get_all-Keeps = search integrity_rules

  pub Lanes_get-Keeps : (id : ℕ) → Keeps P (Lanes.get env id)
  unfolding Lanes.get
  Lanes_get-Keeps id = search integrity_rules

  pub Schedules_get_by_lane_id-Keeps : (id : ℕ) → Keeps P (Schedules.get_by_lane_id env id)
  unfolding Schedules.get_by_lane_id
  Schedules_get_by_lane_id-Keeps id = search integrity_rules

  pub Users_get_by_email-Keeps : (email : String) → Keeps P (Users.get_by_email env email)
  unfolding Users.get_by_email
  Users_get_by_email-Keeps email = search integrity_rules

  pub Users_get_by_id-Keeps : (id : ℕ) → Keeps P (Users.get_by_id env id)
  unfolding Users.get_by_id
  Users_get_by_id-Keeps id = search integrity_rules

module _ {C : Type 0} {P : Db → Type 0} (env : Env C) (c : Closed P) where
  pub Bookings_create-Keeps : (b : Booking) → Keeps P (Bookings.create env b)
  unfolding Bookings.create
  Bookings_create-Keeps b = search (integrity_rules, c.booking)

  pub Bookings_cancel-Keeps : (id user_id : ℕ) → Keeps P (Bookings.cancel env id user_id)
  unfolding Bookings.cancel
  Bookings_cancel-Keeps id user_id = search (integrity_rules, c.cancelled)

  pub get_or_create_for_dummy-Keeps : (u : User) → Keeps P (Users.get_or_create_for_dummy env u)
  unfolding Users.get_or_create_for_dummy
  get_or_create_for_dummy-Keeps u = search (integrity_rules, c.upsert)

module _ {C : Type 0} {P : Db → Type 0} (env : Env C) (g : Growing P) where
  pub create_slots-Keeps : (slots : List Slot) → Keeps P (Slots.create_slots env slots)
  unfolding Slots.create_slots
  create_slots-Keeps [] = search integrity_rules
  create_slots-Keeps (s ∷ slots) = search (integrity_rules, g.slots)

  pub Schedules_create-Keeps : (s : Schedule) → Keeps P (Schedules.create env s)
  unfolding Schedules.create
  Schedules_create-Keeps s = search (integrity_rules, insert_statement-Keeps env g)

module _ {C : Type 0} {P : Db → Type 0} (env : Env C) (j : Joining P) where
  pub Lanes_create-Keeps : (lane : Lane) → Keeps P (Lanes.create env lane)
  unfolding Lanes.create
  Lanes_create-Keeps lane = search (integrity_rules, j.lane)

  pub Users_create-Keeps : (u : User) → Keeps P (Users.create env u)
  unfolding Users.create
  Users_create-Keeps u = search (integrity_rules, j.user)

pub ruleset repository_rules = (
  keeps_rules, Bookings_create-Keeps, Bookings_get-Keeps, Bookings_cancel-Keeps,
  get_active_by_user_id-Keeps, get_list-Keeps, create_slots-Keeps, Slots_get_by_id-Keeps,
  Slots_get_by_lane_id-Keeps, get_available-Keeps, Lanes_create-Keeps, Lanes_get_all-Keeps,
  Lanes_get-Keeps, Schedules_create-Keeps, Schedules_get_by_lane_id-Keeps, Users_create-Keeps,
  get_or_create_for_dummy-Keeps, Users_get_by_email-Keeps, Users_get_by_id-Keeps,
)
