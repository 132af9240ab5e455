-- ===== src/Db.antt =====
-- migrations/001_init.up.sql: the tables, and what the server checks when a row is inserted.
-- A table is the list of its rows, oldest first. A new row is checked against the unique keys and
-- then against the foreign keys, as the server does; a statement that fails changes nothing.
pub mod Intact
use Prim.Native.String.{count}
use strike_reserve.Base.{
  ℕ, String, Bool, not, ◌&&◌, ◌||◌, List, [], ◌∷◌, ◌++◌, any, str_eq, ltb, leb, ◌==◌, if◌then◌else◌,
}
use strike_reserve.Models.{User, Lane, Slot, Booking, is_active, role_valid, lane_type_valid}

-- A row of `schedules`: the two columns of type TIME hold a time of day.
pub record ScheduleRow : Type 0 where
  pub id : ℕ
  pub lane_id : ℕ
  pub days_of_week : List ℕ
  pub start_time : ℕ
  pub end_time : ℕ
  pub created_at : ℕ

pub record Db : Type 0 where
  pub users : List User
  pub lanes : List Lane
  pub schedules : List ScheduleRow
  pub slots : List Slot
  pub bookings : List Booking

abbrev pub empty_db : Db
empty_db = record { users = []; lanes = []; schedules = []; slots = []; bookings = [] }

-- Why the server refuses a statement.
pub data Violation : Type 0 where
  unique foreign_key check not_null bad_enum bad_time too_long out_of_range : Violation

abbrev pub sql_state : Violation → String
sql_state unique = "23505"
sql_state foreign_key = "23503"
sql_state check = "23514"
sql_state not_null = "23502"
sql_state bad_enum = "22P02"
sql_state bad_time = "22007"
sql_state too_long = "22001"
sql_state out_of_range = "22003"

-- What a statement does: a result and the new tables, a violation, or no row to scan.
pub data Effect {ℓ} (A : Type ℓ) : Type ℓ where
  done : A → Db → Effect A
  violates : Violation → Effect A
  no_row : Effect A

-- REFERENCES users(id), lanes(id), slots(id)
abbrev pub has_user : ℕ → Db → Bool
has_user id db = any (λ u. u.id == id) db.users

abbrev pub has_lane : ℕ → Db → Bool
has_lane id db = any (λ l. l.id == id) db.lanes

abbrev pub has_slot : ℕ → List Slot → Bool
has_slot id slots = any (λ s. s.id == id) slots

-- PRIMARY KEY, email UNIQUE
abbrev pub users_clash : User → User → Bool
users_clash u v = u.id == v.id || str_eq u.email v.email

abbrev pub lanes_clash : Lane → Lane → Bool
lanes_clash l m = l.id == m.id

-- PRIMARY KEY, CONSTRAINT unique_schedule UNIQUE (lane_id)
abbrev pub schedules_clash : ScheduleRow → ScheduleRow → Bool
schedules_clash r s = r.id == s.id || r.lane_id == s.lane_id

-- PRIMARY KEY, CONSTRAINT unique_slot UNIQUE (lane_id, start_time)
abbrev pub slots_clash : Slot → Slot → Bool
slots_clash r s = r.id == s.id || (r.lane_id == s.lane_id && r.start_time == s.start_time)

-- PRIMARY KEY, UNIQUE INDEX unique_active_booking_per_slot ON bookings(slot_id) WHERE active
abbrev pub bookings_clash : Booking → Booking → Bool
bookings_clash b c =
    b.id == c.id || (is_active b.status && is_active c.status && b.slot_id == c.slot_id)

unfoldable pub insert_user : User → Db → Effect (Unit {0})
insert_user u db =
    if not (role_valid u.role)
    then violates bad_enum
    else if any (λ v. users_clash v u) db.users
    then violates unique
    else done tt (record db { users = db.users ++ u ∷ [] })

-- name VARCHAR(255), type lane_type
unfoldable pub insert_lane : Lane → Db → Effect (Unit {0})
insert_lane l db =
    if not (lane_type_valid l.lane_type)
    then violates bad_enum
    else if ltb 255 (count l.name)
    then violates too_long
    else if any (λ m. lanes_clash m l) db.lanes
    then violates unique
    else done tt (record db { lanes = db.lanes ++ l ∷ [] })

-- CONSTRAINT check_times CHECK (start_time < end_time)
unfoldable pub insert_schedule : ScheduleRow → Db → Effect (Unit {0})
insert_schedule s db =
    if leb s.end_time s.start_time
    then violates check
    else if any (λ r. schedules_clash r s) db.schedules
    then violates unique
    else if has_lane s.lane_id db
    then done tt (record db { schedules = db.schedules ++ s ∷ [] })
    else violates foreign_key

-- CONSTRAINT check_slot_duration CHECK (end_time > start_time)
unfoldable pub insert_slot : Slot → Db → Effect (Unit {0})
insert_slot s db =
    if leb s.end_time s.start_time
    then violates check
    else if any (λ r. slots_clash r s) db.slots
    then violates unique
    else if has_lane s.lane_id db
    then done tt (record db { slots = db.slots ++ s ∷ [] })
    else violates foreign_key

unfoldable pub insert_booking : Booking → Db → Effect (Unit {0})
insert_booking b db =
    if any (λ c. bookings_clash c b) db.bookings
    then violates unique
    else if has_user b.user_id db
    then (if has_slot b.slot_id db.slots
        then done tt (record db { bookings = db.bookings ++ b ∷ [] })
        else violates foreign_key)
    else violates foreign_key
