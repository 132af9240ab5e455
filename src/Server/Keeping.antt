-- ===== src/Server/Keeping.antt =====
-- What a history of requests and generator rounds (app/internal/app) does to a property of the tables.
use strike_reserve.Base.{
  All, ℕ, List, [], ◌∷◌, Option, none, some, Bool, true, false, if◌then◌else◌,
}
use strike_reserve.Models.{Claims, User, UserRole, UserLogin, UserRegister, LaneCreate, Schedule}
use strike_reserve.Db.{Db}
use strike_reserve.World.{World}
use strike_reserve.Exec.{Exec, Result, ok, err, IsTransactional}
use strike_reserve.Exec.Keeps.{Keeps}
use strike_reserve.Repository.Keeping.{Closed}
use strike_reserve.Service.Keeping
use strike_reserve.Service.Lanes.{create_schedule as create_schedule_service}
use strike_reserve.Service.Generator.{generate_lane}
use strike_reserve.Handler.Bookings
use strike_reserve.Handler.Auth
use strike_reserve.Handler.Lanes
use strike_reserve.Handler.Middleware.{Gate, next, refuse, jwt_middleware}
use strike_reserve.Handler.Auth.{dummy_token, login_token}
use strike_reserve.Handler.Lanes.{ScheduleBody, schedule_of}
use strike_reserve.Base.Int.{ℤ}
use strike_reserve.Service.Auth.{validate_token}
use strike_reserve.Handler.Api.{Response}
use strike_reserve.Handler.Bookings.{
  Handle, answer, refuse as refuse_with, proceed, create_as, cancel_as, list_as,
}
use strike_reserve.Server.{
  Server, Request, route, pass, serve, Event, step, history, dummy_login, login, register,
  create_booking, cancel_booking, my_bookings, list_bookings, create_lane, list_lanes,
  create_schedule, list_slots, request, generation,
}

-- A handler keeps the property.
record KeepsTables {C B : Type 0} (P : Db → Type 0) (h : Handle C B) : Type 0 where
  at : (w : World C) → P w.db → P (h w).1.db

module _ {C B : Type 0} {P : Db → Type 0} where
  refuse-keeps : (r : Response B) → KeepsTables {C = C} P (refuse_with r)
  refuse-keeps r = record { at = λ w i. i }

  answer-Keeps :
      {A : Type 0} (f : Result A → Response B) (m : Exec C A)
      → Keeps P m
      → KeepsTables P (answer f m)
  answer-Keeps f m k = record { at = λ w i. k.at w i }

  if-keeps :
      (b : Bool) (h k : Handle C B)
      → KeepsTables P h
      → KeepsTables P k
      → KeepsTables P (if b then h else k)
  if-keeps true h k p q = p
  if-keeps false h k p q = q

  proceed-Keeps :
      {A : Type 0} (k : Result A → Handle C B) (m : Exec C A)
      → ((r : Result A) → KeepsTables P (k r))
      → Keeps P m
      → KeepsTables P (proceed k m)
  proceed-Keeps k m h i = record { at = λ w j. (h (m w).0).at (m w).1 (i.at w j) }

ruleset handler_rules = (refuse-keeps, answer-Keeps, if-keeps, proceed-Keeps)

-- A property of the tables that a server keeps: whatever does not add slots or schedules keeps it, and
-- so do CreateSchedule, at the schedules that are admitted, and a lane's turn in a round of the
-- generator.
pub record Kept {C : Type 0} (s : Server C) (Admitted : Schedule → Type 0) (P : Db → Type 0)
    : Type 0 where
  pub closed : Closed P
  pub schedule :
      (sch : Schedule) → Admitted sch → Keeps P (create_schedule_service s.env s.tx s.lanes sch)
  pub turn : (lane_id : ℕ) → Keeps P (generate_lane s.env s.generator lane_id)

-- The schedules that are asked for are admitted.
abbrev pub Asks : (Schedule → Type 0) → Request → Type 0
Asks Admitted (create_schedule lane_id body) = Admitted (schedule_of lane_id body)
Asks Admitted _ = Unit

abbrev pub Admits : (Schedule → Type 0) → Event → Type 0
Admits Admitted (request header q) = Asks Admitted q
Admits Admitted generation = Unit

module _ {C : Type 0} {P : Db → Type 0} {Admitted : Schedule → Type 0} (s : Server C)
    (t : IsTransactional C s.tx) (k : Kept s Admitted P) where
  create_as-keeps :
      (slot_id : ℕ) (id : Option ℕ) → KeepsTables P (create_as s.env s.parse_id s.tx slot_id id)
  create_as-keeps slot_id none = search handler_rules
  create_as-keeps slot_id (some id) =
      search (handler_rules, Keeping.create-Keeps s.env k.closed s.tx t)

  cancel_as-keeps :
      (booking_id : ℕ) (id : Option ℕ)
      → KeepsTables P (cancel_as s.env s.parse_id s.tx booking_id id)
  cancel_as-keeps booking_id none = search handler_rules
  cancel_as-keeps booking_id (some id) =
      search (handler_rules, Keeping.cancel-Keeps s.env k.closed s.tx t)

  list_as-keeps : (id : Option ℕ) → KeepsTables P (list_as s.env s.parse_id id)
  list_as-keeps none = search handler_rules
  list_as-keeps (some id) = search (handler_rules, Keeping.get_by_user_id-Keeps s.env)

  dummy_token-keeps : (r : Result User) → KeepsTables P (dummy_token s.env s.jwt s.auth s.id_text r)
  dummy_token-keeps (ok u) =
      search (handler_rules, Keeping.generate_token-Keeps s.env s.jwt s.id_text)
  dummy_token-keeps (err e) = search handler_rules

  login_token-keeps : (r : Result User) → KeepsTables P (login_token s.env s.jwt s.auth s.id_text r)
  login_token-keeps (ok u) =
      search (handler_rules, Keeping.generate_token-Keeps s.env s.jwt s.id_text)
  login_token-keeps (err e) = search handler_rules

  create_booking-keeps :
      (u : Option Claims) (slot_id : ℕ)
      → KeepsTables P (Bookings.post_bookings_create s.env s.parse_id s.tx u slot_id)
  unfolding Bookings.post_bookings_create
  create_booking-keeps none slot_id = search handler_rules
  create_booking-keeps (some u) slot_id = search (handler_rules, create_as-keeps)

  cancel_booking-keeps :
      (u : Option Claims) (id : ℕ)
      → KeepsTables P (Bookings.post_bookings_booking_id_cancel s.env s.parse_id s.tx u id)
  unfolding Bookings.post_bookings_booking_id_cancel
  cancel_booking-keeps none id = search handler_rules
  cancel_booking-keeps (some u) id = search (handler_rules, cancel_as-keeps)

  my_bookings-keeps :
      (u : Option Claims) → KeepsTables P (Bookings.get_bookings_my s.env s.parse_id u)
  unfolding Bookings.get_bookings_my
  my_bookings-keeps none = search handler_rules
  my_bookings-keeps (some u) = search (handler_rules, list_as-keeps)

  list_bookings-keeps :
      (u : Option Claims) (page size : Option ℤ)
      → KeepsTables P (Bookings.get_bookings_list s.env s.pages u page size)
  unfolding Bookings.get_bookings_list
  list_bookings-keeps none page size = search handler_rules
  list_bookings-keeps (some u) page size = search (handler_rules, Keeping.get_list-Keeps s.env)

  dummy_login-keeps :
      (role : UserRole) → KeepsTables P (Auth.post_dummy_login s.env s.jwt s.auth s.id_text role)
  unfolding Auth.post_dummy_login
  dummy_login-keeps role =
      search (handler_rules, dummy_token-keeps, Keeping.get_or_create_dummy-Keeps s.env k.closed)

  login-keeps :
      (l : UserLogin)
      → KeepsTables P (Auth.post_login s.env s.jwt s.auth s.id_text s.validator s.bcrypt l)
  unfolding Auth.post_login
  login-keeps l = search (handler_rules, login_token-keeps, Keeping.login-Keeps s.env s.bcrypt)

  register-keeps :
      (r : UserRegister) → KeepsTables P (Auth.post_register s.env s.validator s.bcrypt s.cost r)
  unfolding Auth.post_register
  register-keeps r = search (handler_rules, Keeping.register-Keeps s.env s.bcrypt k.closed.joining)

  create_lane-keeps :
      (u : Option Claims) (body : LaneCreate) → KeepsTables P (Lanes.post_lanes_create s.env u body)
  unfolding Lanes.post_lanes_create
  create_lane-keeps none body = search handler_rules
  create_lane-keeps (some u) body =
      search (handler_rules, Keeping.create_lane-Keeps s.env k.closed.joining)

  list_lanes-keeps : (u : Option Claims) → KeepsTables P (Lanes.get_lanes_list s.env u)
  unfolding Lanes.get_lanes_list
  list_lanes-keeps none = search handler_rules
  list_lanes-keeps (some u) = search (handler_rules, Keeping.get_all_lanes-Keeps s.env)

  create_schedule-keeps :
      (u : Option Claims) (lane_id : ℕ) (body : ScheduleBody)
      → Admitted (schedule_of lane_id body)
      → KeepsTables P
          (Lanes.post_lanes_lane_id_schedule_create s.env s.tx s.lanes s.schedule_ok u lane_id body)
  unfolding Lanes.post_lanes_lane_id_schedule_create
  create_schedule-keeps none lane_id body a = search handler_rules
  create_schedule-keeps (some u) lane_id body a =
      let saved = k.schedule (schedule_of lane_id body) a in search (handler_rules, saved)

  list_slots-keeps :
      (u : Option Claims) (lane_id date : ℕ)
      → KeepsTables P (Lanes.get_lanes_lane_id_slots_list s.env u lane_id date)
  unfolding Lanes.get_lanes_lane_id_slots_list
  list_slots-keeps none lane_id date = search handler_rules
  list_slots-keeps (some u) lane_id date =
      search (handler_rules, Keeping.get_available_slots-Keeps s.env)

  route-Keeps :
      (u : Option Claims) (q : Request) (w : World C)
      → Asks Admitted q
      → P w.db
      → P (route s u q w).1.db
  unfolding route
  route-Keeps u (dummy_login role) w a i = (dummy_login-keeps role).at w i
  route-Keeps u (login l) w a i = (login-keeps l).at w i
  route-Keeps u (register r) w a i = (register-keeps r).at w i
  route-Keeps u (create_booking slot_id) w a i = (create_booking-keeps u slot_id).at w i
  route-Keeps u (cancel_booking id) w a i = (cancel_booking-keeps u id).at w i
  route-Keeps u my_bookings w a i = (my_bookings-keeps u).at w i
  route-Keeps u (list_bookings page size) w a i = (list_bookings-keeps u page size).at w i
  route-Keeps u (create_lane body) w a i = (create_lane-keeps u body).at w i
  route-Keeps u list_lanes w a i = (list_lanes-keeps u).at w i
  route-Keeps u (create_schedule lane_id body) w a i =
      (create_schedule-keeps u lane_id body a).at w i
  route-Keeps u (list_slots lane_id date) w a i = (list_slots-keeps u lane_id date).at w i

  pass-Keeps :
      (g : Gate) (q : Request) (w : World C) → Asks Admitted q → P w.db → P (pass s g q w).1.db
  pass-Keeps (next u) q w a i = route-Keeps u q w a i
  pass-Keeps (refuse r) q w a i = i

  step-Keeps : (e : Event) (w : World C) → Admits Admitted e → P w.db → P (step s e w).db
  unfolding step serve
  step-Keeps (request header q) w a i =
      pass-Keeps (jwt_middleware (validate_token s.jwt s.auth) header) q w a i
  step-Keeps generation w a i = (Keeping.generate_all-Keeps s.env s.generator k.turn).at w i

  -- Then every history of requests and rounds keeps it, where the schedules that are asked for are
  -- admitted.
  pub history-Keeps :
      (events : List Event) (w : World C)
      → All (Admits Admitted) events
      → P w.db
      → P (history s events w).db
  unfolding history
  history-Keeps [] w a i = i
  history-Keeps (e ∷ events) w a i = history-Keeps events (step s e w) a.1 (step-Keeps e w a.0 i)
