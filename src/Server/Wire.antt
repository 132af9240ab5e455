-- ===== src/Server/Wire.antt =====
-- app/internal/api/api.gen.go, between echo and the handlers: the parameters of a request that
-- ServerInterfaceWrapper reads, and the body that strictHandler reads.
pub mod Meaning
pub mod Served
pub mod Clients
pub mod Written
use strike_reserve.Base.{
  ℕ, String, Bool, true, false, ◌&&◌, ◌==◌, List, [], ◌∷◌, Option, none, some, length, str_eq,
  if◌then◌else◌,
}
use strike_reserve.Base.Int.{ℤ}
use strike_reserve.Models.{Claims, UserRole, UserLogin, UserRegister, LaneCreate}
use strike_reserve.Models.Hms.{Text}
use strike_reserve.World.{World}
use strike_reserve.Service.Auth.{validate_token}
use strike_reserve.Service.Generator.{generate_all}
use strike_reserve.Handler.Lanes.{ScheduleBody}
use strike_reserve.Handler.Middleware.{Gate, next, refuse, jwt_middleware}
use strike_reserve.Server.Routes.{
  Method, get, post, other_method, Operation, post_bookings_create, get_bookings_list,
  get_bookings_my, post_bookings_booking_id_cancel, post_dummy_login, post_lanes_create,
  get_lanes_list, post_lanes_lane_id_schedule_create, get_lanes_lane_id_slots_list, post_login,
  post_register, Piece, word, param, Entry, routes,
}
use strike_reserve.Server.{
  Server, route, dummy_login, login, register, create_booking, cancel_booking, my_bookings,
  list_bookings, create_lane, list_lanes, create_schedule, list_slots,
}

-- The path in pieces, the parameters behind the question mark, the body and the header.
pub record Http (B : Type 0) : Type 0 where
  pub method : Method
  pub path : List String
  pub query : String → Option String
  pub body : B
  pub authorization : Text

pub data Bound (A : Type 0) : Type 0 where
  bound : A → Bound A
  refused : (status : ℕ) → Bound A

-- The route that echo finds, with the texts of its parameters, and the status where it finds none; how
-- the runtime of the generated code reads a parameter; and what Bind of echo makes of a body, or the
-- status that it refuses it with.
pub record Echo (B : Type 0) : Type 0 where
  pub find : List Entry → Method → List String → Option (Operation × List String)
  pub unrouted : Method → List String → ℕ
  pub uuid : String → Option ℕ
  pub integer : String → Option ℤ
  pub date : String → Option ℕ
  pub slot_body : B → Bound ℕ
  pub role_body : B → Bound UserRole
  pub lane_body : B → Bound LaneCreate
  pub schedule_body : B → Bound ScheduleBody
  pub login_body : B → Bound UserLogin
  pub register_body : B → Bound UserRegister

-- A parameter that cannot be read is answered with 400.
abbrev pub read : {A : Type 0} → Option A → Bound A
read none = refused 400
read (some a) = bound a

abbrev pub given : {A : Type 0} → Option A → Bound (Option A)
given none = refused 400
given (some a) = bound (some a)

abbrev pub optional : {A : Type 0} → (String → Option A) → Option String → Bound (Option A)
optional f none = bound none
optional f (some t) = given (f t)

abbrev pub required : {A : Type 0} → (String → Option A) → Option String → Bound A
required f none = refused 400
required f (some t) = read (f t)

-- ctx.Param, of the only parameter of a route
abbrev pub param_of : List String → String
param_of [] = ""
param_of (t ∷ ts) = t

abbrev pub Act : Type 0 → Type 0
Act C = World C → Option ℕ × World C

-- `if err != nil { return … }`: the error becomes the status, and nothing has been done.
abbrev pub bind : {C A : Type 0} → Bound A → (A → Act C) → Act C
bind (bound a) k = k a
bind (refused n) k = λ w. (some n, w)

module _ {C B : Type 0} (s : Server C) (echo : Echo B) (user : Option Claims) (h : Http B) where
  -- The methods of strictHandler without a body, and below those that read one.
  abbrev pub strict_list_bookings : Option ℤ → Option ℤ → Act C
  strict_list_bookings page size = route s user (list_bookings page size)

  abbrev pub strict_my_bookings : Act C
  strict_my_bookings = route s user my_bookings

  abbrev pub strict_cancel_booking : ℕ → Act C
  strict_cancel_booking id = route s user (cancel_booking id)

  abbrev pub strict_list_lanes : Act C
  strict_list_lanes = route s user list_lanes

  abbrev pub strict_list_slots : ℕ → ℕ → Act C
  strict_list_slots lane_id date = route s user (list_slots lane_id date)

  unfoldable pub strict_create_booking : Act C
  unfolding route
  strict_create_booking =
      bind (echo.slot_body h.body) (λ slot_id. route s user (create_booking slot_id))

  unfoldable pub strict_dummy_login : Act C
  unfolding route
  strict_dummy_login = bind (echo.role_body h.body) (λ role. route s user (dummy_login role))

  unfoldable pub strict_create_lane : Act C
  unfolding route
  strict_create_lane = bind (echo.lane_body h.body) (λ lane. route s user (create_lane lane))

  unfoldable pub strict_create_schedule : ℕ → Act C
  unfolding route
  strict_create_schedule lane_id =
      bind (echo.schedule_body h.body) (λ b. route s user (create_schedule lane_id b))

  unfoldable pub strict_login : Act C
  unfolding route
  strict_login = bind (echo.login_body h.body) (λ l. route s user (login l))

  unfoldable pub strict_register : Act C
  unfolding route
  strict_register = bind (echo.register_body h.body) (λ r. route s user (register r))

  -- The methods of ServerInterfaceWrapper, at the texts of the parameters of the path.
  unfoldable pub list_bookings_query : Act C
  list_bookings_query = bind (optional echo.integer (h.query "page")) (λ page.
      bind (optional echo.integer (h.query "pageSize")) (λ size. strict_list_bookings page size))

  unfoldable pub cancel_booking_path : List String → Act C
  cancel_booking_path ps = bind (read (echo.uuid (param_of ps))) (λ id. strict_cancel_booking id)

  unfoldable pub create_schedule_path : List String → Act C
  unfolding strict_create_schedule
  create_schedule_path ps =
      bind (read (echo.uuid (param_of ps))) (λ lane_id. strict_create_schedule lane_id)

  unfoldable pub list_slots_path : List String → Act C
  list_slots_path ps = bind (read (echo.uuid (param_of ps))) (λ lane_id.
      bind (required echo.date (h.query "date")) (λ date. strict_list_slots lane_id date))

  abbrev pub operate : Operation → List String → Act C
  operate post_bookings_create ps = strict_create_booking
  operate get_bookings_list ps = list_bookings_query
  operate get_bookings_my ps = strict_my_bookings
  operate post_bookings_booking_id_cancel ps = cancel_booking_path ps
  operate post_dummy_login ps = strict_dummy_login
  operate post_lanes_create ps = strict_create_lane
  operate get_lanes_list ps = strict_list_lanes
  operate post_lanes_lane_id_schedule_create ps = create_schedule_path ps
  operate get_lanes_lane_id_slots_list ps = list_slots_path ps
  operate post_login ps = strict_login
  operate post_register ps = strict_register

module _ {C B : Type 0} (s : Server C) (echo : Echo B) where
  abbrev pub found : Http B → Option Claims → Option (Operation × List String) → Act C
  found h user none w = (some (echo.unrouted h.method h.path), w)
  found h user (some (o, ps)) w = operate s echo user h o ps w

  -- The middleware comes before the handler of the route that echo has found, or of none.
  abbrev pub passed : Http B → Gate → Act C
  passed h (refuse r) w = (some 401, w)
  passed h (next user) w = found h user (echo.find routes h.method h.path) w

  unfoldable pub serve_http : Http B → Act C
  serve_http h = passed h (jwt_middleware (validate_token s.jwt s.auth) h.authorization)

-- What reaches the process, one after another: requests, and the ticks of the generator.
pub data Arrival (B : Type 0) : Type 0 where
  http : Http B → Arrival B
  tick : Arrival B

module _ {C B : Type 0} (s : Server C) (echo : Echo B) where
  unfoldable pub http_history : List (Arrival B) → World C → World C
  unfolding serve_http
  http_history [] w = w
  http_history (http h ∷ arrivals) w = http_history arrivals (serve_http s echo h w).1
  http_history (tick ∷ arrivals) w = http_history arrivals (generate_all s.env s.generator w).1
