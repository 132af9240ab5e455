-- ===== src/Handler/Bookings.antt =====
-- The booking handlers of app/internal/handler/handler.go. The claims are what `getUser` finds.
use strike_reserve.Base.{
  ℕ, String, Bool, false, not, ◌||◌, List, map, Option, none, some, ltb, str_eq, if◌then◌else◌,
}
use strike_reserve.Base.Int.{ℤ, to_u64, to_int, pred_u64}
use strike_reserve.Errors.{ServiceError, is_service}
use strike_reserve.Models.{Claims, Booking, BookingList, role_user, role_admin}
use strike_reserve.World.{Env, World}
use strike_reserve.Exec.{Exec, Result, ok, err, TxManager}
use strike_reserve.Service.Bookings
use strike_reserve.Handler.Api.{
  Response, reply, failure, internal, ApiBooking, to_api_booking, BookingPage, forbidden,
  invalid_request, not_found, slot_already_booked, unauthorized, booking_not_found,
  msg_unauthorized, msg_forbidden_only_users, msg_forbidden_only_admins, msg_invalid_user_id,
  msg_slot_not_found, msg_slot_already_booked, msg_invalid_page, msg_invalid_page_size,
  msg_booking_not_found, msg_cancel_forbidden,
}

-- The fields of Handler that are numbers.
pub record PageConfig : Type 0 where
  pub default_page_size : ℕ
  pub max_page_size : ℕ
  pub min_page_size : ℕ
  pub default_page : ℕ
  pub min_page : ℕ

abbrev pub Handle : Type 0 → Type 0 → Type 0
Handle C B = World C → Response B × World C

abbrev pub answer : {C A B : Type 0} → (Result A → Response B) → Exec C A → Handle C B
answer f m w = let (r, w') = m w in (f r, w')

-- A handler that goes on after a service call.
abbrev pub proceed : {C A B : Type 0} → (Result A → Handle C B) → Exec C A → Handle C B
proceed k m w = let (r, w') = m w in k r w'

abbrev pub refuse : {C B : Type 0} → Response B → Handle C B
refuse r w = (r, w)

abbrev pub created : Result Booking → Response ApiBooking
created (ok b) = reply 201 (to_api_booking b)
created (err e) =
    if is_service ServiceError.slot_not_existing e
    then failure 404 not_found msg_slot_not_found
    else if is_service ServiceError.slot_is_used e
    then failure 409 slot_already_booked msg_slot_already_booked
    else internal e

abbrev pub cancelled_response : Result Booking → Response ApiBooking
cancelled_response (ok b) = reply 200 (to_api_booking b)
cancelled_response (err e) =
    if is_service ServiceError.not_found e
    then failure 404 booking_not_found msg_booking_not_found
    else if is_service ServiceError.forbidden e
    then failure 403 forbidden msg_cancel_forbidden
    else internal e

abbrev pub listed : Result (List Booking) → Response (List ApiBooking)
listed (ok bookings) = reply 200 (map to_api_booking bookings)
listed (err e) = internal e

abbrev pub page_listed : ℕ → ℕ → Result BookingList → Response BookingPage
page_listed page page_size (ok l) = reply 200 (record {
  bookings = map to_api_booking l.bookings;
  pagination = record { page = to_int page; page_size = to_int page_size; total = to_int l.total };
})
page_listed page page_size (err e) = internal e

module _ {C : Type 0} (env : Env C) (parse_id : String → Option ℕ) where
  abbrev pub create_as : TxManager C → ℕ → Option ℕ → Handle C ApiBooking
  create_as tx slot_id none = refuse (failure 400 invalid_request msg_invalid_user_id)
  create_as tx slot_id (some user_id) = answer created (Bookings.create env tx user_id slot_id)

  unfoldable pub post_bookings_create : TxManager C → Option Claims → ℕ → Handle C ApiBooking
  unfolding to_api_booking
  post_bookings_create tx none slot_id = refuse (failure 401 unauthorized msg_unauthorized)
  post_bookings_create tx (some user) slot_id =
      if not (str_eq user.role role_user)
      then refuse (failure 403 forbidden msg_forbidden_only_users)
      else create_as tx slot_id (parse_id user.user_id)

  abbrev pub cancel_as : TxManager C → ℕ → Option ℕ → Handle C ApiBooking
  cancel_as tx booking_id none = refuse (failure 403 invalid_request msg_invalid_user_id)
  cancel_as tx booking_id (some user_id) =
      answer cancelled_response (Bookings.cancel env tx booking_id user_id)

  unfoldable pub post_bookings_booking_id_cancel :
      TxManager C → Option Claims → ℕ → Handle C ApiBooking
  unfolding to_api_booking
  post_bookings_booking_id_cancel tx none booking_id =
      refuse (failure 401 unauthorized msg_unauthorized)
  post_bookings_booking_id_cancel tx (some user) booking_id =
      cancel_as tx booking_id (parse_id user.user_id)

  abbrev pub list_as : Option ℕ → Handle C (List ApiBooking)
  list_as none = refuse (failure 403 invalid_request msg_invalid_user_id)
  list_as (some user_id) = answer listed (Bookings.get_by_user_id env user_id)

  unfoldable pub get_bookings_my : Option Claims → Handle C (List ApiBooking)
  unfolding to_api_booking
  get_bookings_my none = refuse (failure 401 unauthorized msg_unauthorized)
  get_bookings_my (some user) = list_as (parse_id user.user_id)

-- A query parameter as uint64, or the default.
abbrev pub param_or : ℕ → Option ℤ → ℕ
param_or default none = default
param_or default (some i) = to_u64 i

abbrev pub page_refused : PageConfig → Option ℤ → Bool
page_refused c none = false
page_refused c (some i) = ltb (to_u64 i) c.min_page

abbrev pub page_size_refused : PageConfig → Option ℤ → Bool
page_size_refused c none = false
page_size_refused c (some i) = ltb c.max_page_size (to_u64 i) || ltb (to_u64 i) c.min_page_size

module _ {C : Type 0} (env : Env C) where
  unfoldable pub get_bookings_list :
      PageConfig → Option Claims → Option ℤ → Option ℤ → Handle C BookingPage
  unfolding to_api_booking to_u64 to_int pred_u64
  get_bookings_list c none page page_size = refuse (failure 401 unauthorized msg_unauthorized)
  get_bookings_list c (some user) page page_size =
      if not (str_eq user.role role_admin)
      then refuse (failure 403 forbidden msg_forbidden_only_admins)
      else if page_refused c page
      then refuse (failure 400 invalid_request msg_invalid_page)
      else if page_size_refused c page_size
      then refuse (failure 400 invalid_request msg_invalid_page_size)
      else let p = param_or c.default_page page in
        let size = param_or c.default_page_size page_size in
        answer (page_listed p size) (Bookings.get_list env size (pred_u64 p))
