-- ===== src/Handler/Api.antt =====
-- app/internal/handler/errors.go and utils.go: what a handler answers with. The status of a response
-- is the number in the name of its generated type.
use strike_reserve.Base.{ℕ, String, Bool, List, Option, none, some}
use strike_reserve.Base.Int.{ℤ}
use strike_reserve.Errors.{Error, panic}
use strike_reserve.Models.{User, UserRole, Lane, LaneType, Schedule, Slot, Booking, BookingStatus}
use strike_reserve.Models.Hms.{Text, hm_time}

pub data ErrorCode : Type 0 where
  booking_not_found forbidden internal_error invalid_request lane_not_found not_found
        schedule_exists slot_already_booked slot_not_found unauthorized :
      ErrorCode

pub data ErrorMessage : Type 0 where
  msg_internal_error msg_unauthorized msg_forbidden_only_users msg_forbidden_only_admins
        msg_invalid_user_id msg_slot_not_found msg_slot_already_booked msg_invalid_page
        msg_invalid_page_size msg_booking_not_found msg_cancel_forbidden msg_invalid_role
        msg_invalid_credentials msg_invalid_registration msg_invalid_days_of_week msg_lane_not_found
        msg_schedule_exists msg_invalid_date msg_invalid_lane_type :
      ErrorMessage

-- `crashed` is the connection closed by a panic.
pub data Response (B : Type 0) : Type 0 where
  reply : (status : ℕ) → B → Response B
  failure : (status : ℕ) → ErrorCode → ErrorMessage → Response B
  crashed : Response B

-- MakeInternalError, in a response with status 500; a panic on the way has no response.
abbrev pub internal : {B : Type 0} → Error → Response B
internal panic = crashed
internal _ = failure 500 internal_error msg_internal_error

pub record ApiBooking : Type 0 where
  pub id : ℕ
  pub user_id : ℕ
  pub slot_id : ℕ
  pub status : BookingStatus

unfoldable pub to_api_booking : Booking → ApiBooking
to_api_booking b = record { id = b.id; user_id = b.user_id; slot_id = b.slot_id; status = b.status }

pub record ApiLane : Type 0 where
  pub id : ℕ
  pub name : String
  pub lane_type : LaneType
  pub is_active : Option Bool
  pub description : Option String
  pub created_at : ℕ

unfoldable pub to_api_room : Lane → ApiLane
to_api_room l = record {
  id = l.id;
  name = l.name;
  lane_type = l.lane_type;
  is_active = l.is_active;
  description = l.description;
  created_at = l.created_at;
}

pub record ApiSlot : Type 0 where
  pub id : ℕ
  pub lane_id : ℕ
  pub start : ℕ
  pub finish : ℕ

unfoldable pub to_api_slot : Slot → ApiSlot
to_api_slot s = record { id = s.id; lane_id = s.lane_id; start = s.start_time; finish = s.end_time }

pub record ApiUser : Type 0 where
  pub id : ℕ
  pub email : String
  pub role : UserRole
  pub created_at : ℕ

unfoldable pub to_api_user : User → ApiUser
to_api_user u = record { id = u.id; email = u.email; role = u.role; created_at = u.created_at }

pub record ApiSchedule : Type 0 where
  pub id : ℕ
  pub days_of_week : List ℕ
  pub lane_id : ℕ
  pub start_time : Text
  pub end_time : Text

abbrev with_times : Schedule → Option Text → Option Text → Option ApiSchedule
with_times s (some from) (some to) = some (record {
  id = s.id;
  days_of_week = s.days_of_week;
  lane_id = s.lane_id;
  start_time = from;
  end_time = to;
})
with_times s _ _ = none

-- `none` is the panic of `HMTime` on a short text.
unfoldable pub to_api_schedule : Schedule → Option ApiSchedule
unfolding hm_time
to_api_schedule s = with_times s (hm_time s.start_time) (hm_time s.end_time)

pub record Pagination : Type 0 where
  pub page : ℤ
  pub page_size : ℤ
  pub total : ℤ

pub record BookingPage : Type 0 where
  pub bookings : List ApiBooking
  pub pagination : Pagination
