-- ===== src/Examples/Availability.antt =====
-- The list of a lane's day, before and after a booking.
use mathlib.Core.List.{Memᴰ}
use strike_reserve.Base.{refl, ◌≡◌, ◌+◌, ◌*◌, false, [], ◌∷◌, ◌==◌, All, arith}
use strike_reserve.Models.{Booking, Slot, active, cancelled}
use strike_reserve.Db.{insert_booking}
use strike_reserve.Db.Intact.{Intact}
use strike_reserve.World.{World}
use strike_reserve.Exec.{◌>>=◌, on_error, query, at_tick, new_id}
use strike_reserve.Exec.Tx.{atomic, atomic-IsTransactional}
use strike_reserve.Repository.Sql.{select_one, order_by}
use strike_reserve.Repository.Bookings
use strike_reserve.Repository.Slots
use strike_reserve.Repository.Slots.{available_slots}
use strike_reserve.Repository.Slots.Available.{Offer, available_slots-Offer}
use strike_reserve.Repository.Lanes
use strike_reserve.Service.Cache.{lookup, store}
use strike_reserve.Service.Bookings.{create, create_in_tx, cancel, cancel_in_tx, forget_slot}
use strike_reserve.Service.Lanes.{get_available_slots}
use strike_reserve.Service.Availability.{Forgets, create_hides, cancel_shows}
use strike_reserve.Examples.{Held, env, world, slot, booking, a_day}

env-Forgets : Forgets env
env-Forgets key [] = refl
env-Forgets key (entry ∷ days) = ground (arith, env-Forgets key days)

abbrev new_booking : Booking
new_booking = record {
  id = 1002;
  user_id = 1;
  slot_id = 7;
  status = active;
  created_at = env.now 2;
}

available_slots-Offer_example :
    Offer 3 (6 * a_day) (world []).db (available_slots 3 (6 * a_day) (world []).db)
available_slots-Offer_example = available_slots-Offer 3 (6 * a_day) (world []).db

-- The lane has another slot on the day.
abbrev other : Slot
other = record slot { id = 8; start_time = 6 * a_day; end_time = 6 * a_day + 1 }

abbrev two_slots : World Held
two_slots = record (world []) { db = record (world []).db { slots = slot ∷ other ∷ [] } }

abbrev after_create : World Held
after_create = (create env atomic 1 7 two_slots).1

abbrev after_list : World Held
after_list = (get_available_slots env 3 (6 * a_day) after_create).1

create_hides_example : All (λ (r : Slot). (7 == r.id) ≡ false) (other ∷ [])
unfolding create create_in_tx ◌>>=◌ on_error query at_tick new_id Slots.get_by_id Bookings.create
    select_one forget_slot insert_booking get_available_slots lookup store Lanes.get
    Slots.get_available_by_lane_and_date available_slots order_by
create_hides_example =
    create_hides env env-Forgets (λ t. refl) atomic atomic-IsTransactional 1 7 two_slots
      after_create after_list new_booking slot (6 * a_day) (other ∷ []) refl refl refl refl

booked-Intact : Intact (world (booking ∷ [])).db
booked-Intact = record {
  users = (refl, tt);
  lanes = (refl, tt);
  schedules = tt;
  slots = (refl, tt);
  bookings = (refl, tt);
  schedule_lane = tt;
  schedule_span = tt;
  slot_lane = (refl, tt);
  slot_span = (ground arith, tt);
  booking_user = (refl, tt);
  booking_slot = (refl, tt);
}

abbrev after_cancel : World Held
after_cancel = (cancel env atomic 9 1 (world (booking ∷ []))).1

abbrev after_second_list : World Held
after_second_list = (get_available_slots env 3 (6 * a_day) after_cancel).1

cancel_shows_example : Memᴰ slot (slot ∷ [])
unfolding cancel cancel_in_tx ◌>>=◌ on_error query Slots.get_by_id Bookings.get Bookings.cancel
    select_one forget_slot get_available_slots lookup store Lanes.get
    Slots.get_available_by_lane_and_date available_slots order_by
cancel_shows_example =
    cancel_shows env env-Forgets (λ t. refl) atomic atomic-IsTransactional 9 1
      (world (booking ∷ [])) after_cancel after_second_list (record booking { status = cancelled })
      booking slot (6 * a_day) (slot ∷ []) booked-Intact refl refl refl refl refl refl
