-- ===== src/Server.antt =====
-- The whole program as app/internal/app/app.go and di.go put it together: requests pass the JWT
-- middleware and reach a handler, and the generator runs beside them. Events are handled one after
-- another here.
pub mod Guards
pub mod Accounts
pub mod History
pub mod Keeping
pub mod Timetable
pub mod Paging
pub mod SignIn
pub mod Statuses
pub mod Routes
pub mod Declared
pub mod Conforms
pub mod Wire
use strike_reserve.Base.{ℕ, String, Bool, List, [], ◌∷◌, Option, none, some}
use strike_reserve.Base.Int.{ℤ}
use strike_reserve.Models.{Claims, UserRole, UserLogin, UserRegister, LaneCreate, Schedule}
use strike_reserve.Models.Hms.{Text}
use strike_reserve.World.{Env, World}
use strike_reserve.Exec.{TxManager}
use strike_reserve.Service.Auth.{Jwt, AuthConfig, validate_token}
use strike_reserve.Service.Users.{Bcrypt}
use strike_reserve.Service.Lanes.{LaneConfig}
use strike_reserve.Service.Generator.{GeneratorConfig, generate_all}
use strike_reserve.Handler.Api.{Response, reply, failure, crashed}
use strike_reserve.Handler.Middleware.{Gate, next, refuse, jwt_middleware}
use strike_reserve.Handler.Bookings.{
  PageConfig, post_bookings_create, post_bookings_booking_id_cancel, get_bookings_my,
  get_bookings_list,
}
use strike_reserve.Handler.Auth.{Validator, post_dummy_login, post_login, post_register}
use strike_reserve.Handler.Lanes.{
  ScheduleBody, post_lanes_create, get_lanes_list, post_lanes_lane_id_schedule_create,
  get_lanes_lane_id_slots_list,
}

-- The configuration, and the libraries that the program is built on.
pub record Server (C : Type 0) : Type 1 where
  pub env : Env C
  pub tx : TxManager C
  pub jwt : Jwt
  pub auth : AuthConfig
  pub bcrypt : Bcrypt
  pub cost : ℕ
  pub pages : PageConfig
  pub lanes : LaneConfig
  pub generator : GeneratorConfig
  pub validator : Validator
  pub schedule_ok : Schedule → Bool
  pub id_text : ℕ → String
  pub parse_id : String → Option ℕ

-- The routes of the interface, with what their handlers read of the request.
pub data Request : Type 0 where
  dummy_login : UserRole → Request
  login : UserLogin → Request
  register : UserRegister → Request
  create_booking : ℕ → Request
  cancel_booking : ℕ → Request
  my_bookings : Request
  list_bookings : Option ℤ → Option ℤ → Request
  create_lane : LaneCreate → Request
  list_lanes : Request
  create_schedule : ℕ → ScheduleBody → Request
  list_slots : ℕ → ℕ → Request

abbrev pub status : {B : Type 0} → Response B → Option ℕ
status (reply n b) = some n
status (failure n c m) = some n
status crashed = none

abbrev pub with_status : {C B : Type 0} → Response B × World C → Option ℕ × World C
with_status (r, w) = (status r, w)

pub data Event : Type 0 where
  request : Text → Request → Event
  generation : Event

module _ {C : Type 0} (s : Server C) where
  -- The handler of the route, at what the middleware put into the context.
  unfoldable pub route : Option Claims → Request → World C → Option ℕ × World C
  route user (dummy_login role) w =
      with_status (post_dummy_login s.env s.jwt s.auth s.id_text role w)
  route user (login l) w =
      with_status (post_login s.env s.jwt s.auth s.id_text s.validator s.bcrypt l w)
  route user (register r) w = with_status (post_register s.env s.validator s.bcrypt s.cost r w)
  route user (create_booking slot_id) w =
      with_status (post_bookings_create s.env s.parse_id s.tx user slot_id w)
  route user (cancel_booking id) w =
      with_status (post_bookings_booking_id_cancel s.env s.parse_id s.tx user id w)
  route user my_bookings w = with_status (get_bookings_my s.env s.parse_id user w)
  route user (list_bookings page size) w =
      with_status (get_bookings_list s.env s.pages user page size w)
  route user (create_lane body) w = with_status (post_lanes_create s.env user body w)
  route user list_lanes w = with_status (get_lanes_list s.env user w)
  route user (create_schedule lane_id body) w =
      with_status
        (post_lanes_lane_id_schedule_create s.env s.tx s.lanes s.schedule_ok user lane_id body w)
  route user (list_slots lane_id date) w =
      with_status (get_lanes_lane_id_slots_list s.env user lane_id date w)

  abbrev pub pass : Gate → Request → World C → Option ℕ × World C
  pass (refuse r) q w = (some 401, w)
  pass (next user) q w = route user q w

  -- One request, by its Authorization header: the status of the response, if there is one.
  unfoldable pub serve : Text → Request → World C → Option ℕ × World C
  serve header q = pass (jwt_middleware (validate_token s.jwt s.auth) header) q

  unfoldable pub step : Event → World C → World C
  step (request header q) w = (serve header q w).1
  step generation w = (generate_all s.env s.generator w).1

  unfoldable pub history : List Event → World C → World C
  unfolding step
  history [] w = w
  history (e ∷ events) w = history events (step e w)
