-- ===== src/Service/Bookings.antt =====
-- app/internal/service/booking.go
pub mod Cancel
pub mod Create
pub mod Replies
pub mod Ledger
pub mod Racing
pub mod Release
pub mod Verdict
use strike_reserve.Base.{ℕ, not, ◌==◌, List, Option, none, some, if◌then◌else◌}
use strike_reserve.Clock.{safe_truncate}
use strike_reserve.Errors.{
  Error, service, not_found, slot_not_existing, slot_is_used, forbidden, is_not_found, is_conflict,
}
use strike_reserve.Models.{Booking, BookingList, Slot, active, cancelled, is_active}
use strike_reserve.World.{Env}
use strike_reserve.Exec.{Exec, pure, raise, on_error, ◌>>=◌, ◌>>◌, new_id, TxManager}
use strike_reserve.Repository.Bookings
use strike_reserve.Repository.Slots
use strike_reserve.Service.Cache.{invalidate_slots_cache}

abbrev pub or_slot_not_existing : Error → Error
or_slot_not_existing e = if is_not_found e then service slot_not_existing else e

abbrev pub or_slot_is_used : Error → Error
or_slot_is_used e = if is_conflict e then service slot_is_used else e

abbrev pub or_not_found : Error → Error
or_not_found e = if is_not_found e then service not_found else e

module _ {C : Type 0} (env : Env C) where
  -- The function that `Create` runs in a transaction; its result is what it assigns.
  unfoldable pub create_in_tx : ℕ → ℕ → Exec C (Booking × Slot)
  create_in_tx user_id slot_id = do
    slot ← on_error or_slot_not_existing (Slots.get_by_id env slot_id)
    id ← new_id env
    booking ← on_error or_slot_is_used (
        Bookings.create env (record {
          id = id;
          user_id = user_id;
          slot_id = slot_id;
          status = active;
          created_at = 0;
        }))
    pure (booking, slot)

  -- A slot beside the booking tells that `wasChanged` stayed false.
  unfoldable pub cancel_in_tx : ℕ → ℕ → Exec C (Booking × Option Slot)
  cancel_in_tx booking_id user_id = do
    booking ← on_error or_not_found (Bookings.get env booking_id)
    if not (booking.user_id == user_id)
        then raise (service forbidden)
        else if not (is_active booking.status)
        then pure (booking, none)
        else do
          slot ← Slots.get_by_id env booking.slot_id
          Bookings.cancel env booking_id user_id
          pure (record booking { status = cancelled }, some slot)

  unfoldable pub forget_slot : Slot → Exec C (Unit {0})
  unfolding invalidate_slots_cache safe_truncate
  forget_slot slot =
      invalidate_slots_cache env slot.lane_id (safe_truncate (env.wall slot.start_time))

  abbrev pub forget_if_changed : Option Slot → Exec C (Unit {0})
  forget_if_changed none = pure tt
  forget_if_changed (some slot) = forget_slot slot

  unfoldable pub create : TxManager C → ℕ → ℕ → Exec C Booking
  create tx user_id slot_id = do
    (booking, slot) ← tx.run (Booking × Slot) (create_in_tx user_id slot_id)
    forget_slot slot
    pure booking

  unfoldable pub cancel : TxManager C → ℕ → ℕ → Exec C Booking
  cancel tx booking_id user_id = do
    (booking, slot) ← tx.run (Booking × Option Slot) (cancel_in_tx booking_id user_id)
    forget_if_changed slot
    pure booking

  unfoldable pub get_list : ℕ → ℕ → Exec C BookingList
  get_list page_size page = Bookings.get_list env page_size page

  unfoldable pub get_by_user_id : ℕ → Exec C (List Booking)
  get_by_user_id user_id = Bookings.get_active_by_user_id env user_id
