-- ===== src/Repository/Slots.antt =====
-- app/internal/repository/slot.go
pub mod Available
pub mod Batch
use strike_reserve.Base.{ℕ, ◌+◌, Bool, not, ◌&&◌, List, [], ◌∷◌, any, select, ltb, leb, ◌==◌}
use strike_reserve.Clock.{midnight, day_ns}
use strike_reserve.Models.{Booking, Slot, is_active}
use strike_reserve.Db.{Db, Effect, done, insert_slot}
use strike_reserve.World.{Env}
use strike_reserve.Exec.{Exec, pure, query, query_rows_unchecked}
use strike_reserve.Repository.Sql.{select_one, order_by, and_then}

-- The batch of inserts: the server runs it as one transaction, so the first refusal undoes all.
unfoldable pub insert_slots : List Slot → Db → Effect (Unit {0})
insert_slots [] db = done tt db
insert_slots (s ∷ slots) db = and_then (insert_slot s db) (insert_slots slots)

abbrev pub by_start : Slot → Slot → Bool
by_start s t = leb s.start_time t.start_time

-- LEFT JOIN bookings b ON s.id = b.slot_id AND b.status = 'active' … WHERE b.id IS NULL
abbrev pub is_booked : List Booking → Slot → Bool
is_booked bookings s = any (λ b. s.id == b.slot_id && is_active b.status) bookings

abbrev pub is_available : ℕ → ℕ → List Booking → Slot → Bool
is_available lane_id day bookings s =
    s.lane_id == lane_id
    && leb day s.start_time
    && ltb s.start_time (day + day_ns)
    && not (is_booked bookings s)

unfoldable pub available_slots : ℕ → ℕ → Db → List Slot
available_slots lane_id day db =
    order_by by_start (select (is_available lane_id day db.bookings) db.slots)

module _ {C : Type 0} (env : Env C) where
  unfoldable pub create_slots : List Slot → Exec C (Unit {0})
  unfolding insert_slots
  create_slots [] = pure tt
  create_slots (s ∷ slots) = query env (insert_slots (s ∷ slots))

  unfoldable pub get_by_id : ℕ → Exec C Slot
  unfolding select_one
  get_by_id id = query env (λ db. select_one (λ s. s.id == id) db.slots db)

  unfoldable pub get_by_lane_id : ℕ → Exec C (List Slot)
  get_by_lane_id lane_id =
      query_rows_unchecked env
        (λ db. done (order_by by_start (select (λ s. s.lane_id == lane_id) db.slots)) db)

  -- The rows are checked by `rows.Err()` here.
  unfoldable pub get_available_by_lane_and_date : ℕ → ℕ → Exec C (List Slot)
  unfolding available_slots
  get_available_by_lane_and_date lane_id date =
      query env (λ db. done (available_slots lane_id (midnight date) db) db)
