-- ===== src/Handler/Lanes.antt =====
-- The lane, schedule and slot handlers of app/internal/handler/handler.go.
use strike_reserve.Base.{ℕ, Bool, not, List, map, Option, none, some, str_eq, ◌==◌, if◌then◌else◌}
use strike_reserve.Clock.{midnight}
use strike_reserve.Errors.{ServiceError, is_service}
use strike_reserve.Models.{Claims, Lane, LaneCreate, Schedule, Slot, role_admin, lane_type_valid}
use strike_reserve.Models.Hms.{Text, from_hm_to_hms}
use strike_reserve.World.{Env}
use strike_reserve.Exec.{Result, ok, err, TxManager}
use strike_reserve.Service.Lanes
use strike_reserve.Service.Lanes.{LaneConfig}
use strike_reserve.Handler.Api.{
  Response, reply, failure, crashed, internal, ApiLane, to_api_room, ApiSchedule, to_api_schedule,
  ApiSlot, to_api_slot, forbidden, invalid_request, lane_not_found, schedule_exists, unauthorized,
  msg_unauthorized, msg_forbidden_only_admins, msg_invalid_lane_type, msg_invalid_days_of_week,
  msg_lane_not_found, msg_schedule_exists, msg_invalid_date,
}
use strike_reserve.Handler.Bookings.{Handle, answer, refuse}

-- api.PostLanesLaneIdScheduleCreateJSONRequestBody
pub record ScheduleBody : Type 0 where
  pub days_of_week : List ℕ
  pub start_time : Text
  pub end_time : Text

-- The schedule that the handler validates and hands on.
unfoldable pub schedule_of : ℕ → ScheduleBody → Schedule
unfolding from_hm_to_hms
schedule_of lane_id b = record {
  id = 0;
  lane_id = lane_id;
  days_of_week = b.days_of_week;
  start_time = from_hm_to_hms b.start_time;
  end_time = from_hm_to_hms b.end_time;
  created_at = 0;
}

abbrev pub lane_created : Result Lane → Response ApiLane
lane_created (ok lane) = reply 201 (to_api_room lane)
lane_created (err e) = internal e

abbrev pub lanes_listed : Result (List Lane) → Response (List ApiLane)
lanes_listed (ok lanes) = reply 200 (map to_api_room lanes)
lanes_listed (err e) = internal e

abbrev pub show_schedule : Option ApiSchedule → Response ApiSchedule
show_schedule none = crashed
show_schedule (some s) = reply 201 s

abbrev pub schedule_created : Result Schedule → Response ApiSchedule
schedule_created (ok s) = show_schedule (to_api_schedule s)
schedule_created (err e) =
    if is_service ServiceError.lane_not_found e
    then failure 404 lane_not_found msg_lane_not_found
    else if is_service ServiceError.already_exists e
    then failure 409 schedule_exists msg_schedule_exists
    else internal e

abbrev pub slots_listed : Result (List Slot) → Response (List ApiSlot)
slots_listed (ok slots) = reply 200 (map to_api_slot slots)
slots_listed (err e) =
    if is_service ServiceError.lane_not_found e
    then failure 404 lane_not_found msg_lane_not_found
    else internal e

module _ {C : Type 0} (env : Env C) where
  unfoldable pub post_lanes_create : Option Claims → LaneCreate → Handle C ApiLane
  unfolding to_api_room
  post_lanes_create none body = refuse (failure 401 unauthorized msg_unauthorized)
  post_lanes_create (some user) body =
      if not (str_eq user.role role_admin)
      then refuse (failure 403 forbidden msg_forbidden_only_admins)
      else if not (lane_type_valid body.lane_type)
      then refuse (failure 400 invalid_request msg_invalid_lane_type)
      else answer lane_created (Lanes.create_lane env body)

  unfoldable pub get_lanes_list : Option Claims → Handle C (List ApiLane)
  unfolding to_api_room
  get_lanes_list none = refuse (failure 401 unauthorized msg_unauthorized)
  get_lanes_list (some user) = answer lanes_listed (Lanes.get_all_lanes env)

  -- `schedule_ok` is the validator at the tags of models.Schedule.
  unfoldable pub post_lanes_lane_id_schedule_create :
      TxManager C
      → LaneConfig
      → (Schedule → Bool)
      → Option Claims
      → ℕ
      → ScheduleBody
      → Handle C ApiSchedule
  unfolding to_api_schedule schedule_of
  post_lanes_lane_id_schedule_create tx c schedule_ok none lane_id body =
      refuse (failure 401 unauthorized msg_unauthorized)
  post_lanes_lane_id_schedule_create tx c schedule_ok (some user) lane_id body =
      if not (str_eq user.role role_admin)
      then refuse (failure 403 forbidden msg_forbidden_only_admins)
      else if not (schedule_ok (schedule_of lane_id body))
      then refuse (failure 400 invalid_request msg_invalid_days_of_week)
      else answer schedule_created (Lanes.create_schedule env tx c (schedule_of lane_id body))

  -- The date of the request is an instant in UTC.
  unfoldable pub get_lanes_lane_id_slots_list : Option Claims → ℕ → ℕ → Handle C (List ApiSlot)
  unfolding to_api_slot
  get_lanes_lane_id_slots_list none lane_id date =
      refuse (failure 401 unauthorized msg_unauthorized)
  get_lanes_lane_id_slots_list (some user) lane_id date =
      if midnight date == 0
      then refuse (failure 400 invalid_request msg_invalid_date)
      else answer slots_listed (Lanes.get_available_slots env lane_id (midnight date))
