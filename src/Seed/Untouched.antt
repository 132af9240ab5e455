-- ===== src/Seed/Untouched.antt =====
-- The calls of app/seed/main.go that make no booking leave the table of bookings alone.
use strike_reserve.Base.{ℕ, ◌≡◌, List, [], ◌∷◌, arith}
use strike_reserve.Models.{User, UserRegister, Lane, LaneCreate, Slot, Schedule, Booking}
use strike_reserve.Db.{Db, insert_user, insert_lane, insert_schedule, insert_slot, ScheduleRow}
use strike_reserve.World.{Env}
use strike_reserve.Exec.{TxManager, IsTransactional}
use strike_reserve.Exec.Keeps.{Keeps, After}
use strike_reserve.Repository.Keeping.{After-and_then, Joining, Growing}
use strike_reserve.Repository.Slots.{insert_slots}
use strike_reserve.Service.Keeping
use strike_reserve.Service.Lanes
use strike_reserve.Service.Lanes.{LaneConfig}
use strike_reserve.Service.Users
use strike_reserve.Service.Users.{Bcrypt}

-- The table of bookings has these rows.
pub record Rows (bookings : List Booking) (db : Db) : Type 0 where
  pub same : db.bookings ≡ bookings

module _ (rows : List Booking) where
  After-insert_user : (u : User) (db : Db) → Rows rows db → After (Rows rows) (insert_user u db)
  unfolding insert_user
  After-insert_user u db h = ground arith

  After-insert_lane : (l : Lane) (db : Db) → Rows rows db → After (Rows rows) (insert_lane l db)
  unfolding insert_lane
  After-insert_lane l db h = ground arith

  After-insert_schedule :
      (s : ScheduleRow) (db : Db) → Rows rows db → After (Rows rows) (insert_schedule s db)
  unfolding insert_schedule
  After-insert_schedule s db h = ground arith

  After-insert_slot : (s : Slot) (db : Db) → Rows rows db → After (Rows rows) (insert_slot s db)
  unfolding insert_slot
  After-insert_slot s db h = ground arith

  After-insert_slots :
      (slots : List Slot) (db : Db) → Rows rows db → After (Rows rows) (insert_slots slots db)
  unfolding insert_slots
  After-insert_slots [] db h = h
  After-insert_slots (s ∷ slots) db h =
      After-and_then (Rows rows) (insert_slot s db) (insert_slots slots) (After-insert_slots slots)
        (After-insert_slot s db h)

  Rows-Joining : Joining (Rows rows)
  Rows-Joining = record { user = After-insert_user; lane = After-insert_lane }

  Rows-Growing : Growing (Rows rows)
  Rows-Growing = record { schedule = After-insert_schedule; slots = After-insert_slots }

module _ {C : Type 0} (env : Env C) (rows : List Booking) where
  pub Rows-register :
      (b : Bcrypt) (cost : ℕ) (r : UserRegister) → Keeps (Rows rows) (Users.register env b cost r)
  Rows-register b cost r = Keeping.register-Keeps env b (Rows-Joining rows) cost r

  pub Rows-create_lane : (l : LaneCreate) → Keeps (Rows rows) (Lanes.create_lane env l)
  Rows-create_lane l = Keeping.create_lane-Keeps env (Rows-Joining rows) l

  pub Rows-get_available_slots :
      (id date : ℕ) → Keeps (Rows rows) (Lanes.get_available_slots env id date)
  Rows-get_available_slots id date = Keeping.get_available_slots-Keeps env id date

  pub Rows-create_schedule :
      (tx : TxManager C)
      → IsTransactional C tx
      → (c : LaneConfig) (s : Schedule) → Keeps (Rows rows) (Lanes.create_schedule env tx c s)
  Rows-create_schedule tx t c s = Keeping.create_schedule-Keeps env tx t (Rows-Growing rows) c s
