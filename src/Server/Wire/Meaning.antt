-- ===== src/Server/Wire/Meaning.antt =====
-- What a request that reaches app/internal/api/api.gen.go means, read off its parts by the names that
-- the interface gives them: a request of the interface, or nothing.
use mathlib.Core.Option
use strike_reserve.Base.{String, List, [], ◌∷◌, ◌++◌, Option, none, some}
use strike_reserve.Server.{
  Request, Event, request, generation, dummy_login, login, register, create_booking, cancel_booking,
  my_bookings, list_bookings, create_lane, list_lanes, create_schedule, list_slots,
}
use strike_reserve.Server.Routes.{
  Operation, post_bookings_create, get_bookings_list, get_bookings_my,
  post_bookings_booking_id_cancel, post_dummy_login, post_lanes_create, get_lanes_list,
  post_lanes_lane_id_schedule_create, get_lanes_lane_id_slots_list, post_login, post_register,
  routes,
}
use strike_reserve.Server.Wire.{Echo, Http, Bound, bound, refused, Arrival, http, tick, param_of}

infixl 5 ◌>>?◌
abbrev pub ◌>>?◌ : {A B : Type 0} → Option A → (A → Option B) → Option B
none >>? f = none
some a >>? f = f a

abbrev pub if_bound : {A : Type 0} → Bound A → Option A
if_bound (bound a) = some a
if_bound (refused n) = none

-- A parameter that may be left out, but not be wrong.
abbrev pub maybe : {A : Type 0} → (String → Option A) → Option String → Option (Option A)
maybe f none = some none
maybe f (some t) = Option.map some (f t)

module _ {B : Type 0} (echo : Echo B) (h : Http B) where
  abbrev pub meaning : Operation → List String → Option Request
  meaning post_bookings_create ps =
      if_bound (echo.slot_body h.body) >>? λ id. some (create_booking id)
  meaning get_bookings_list ps = maybe echo.integer (h.query "page") >>? λ page.
      maybe echo.integer (h.query "pageSize") >>? λ size. some (list_bookings page size)
  meaning get_bookings_my ps = some my_bookings
  meaning post_bookings_booking_id_cancel ps =
      echo.uuid (param_of ps) >>? λ id. some (cancel_booking id)
  meaning post_dummy_login ps = if_bound (echo.role_body h.body) >>? λ role. some (dummy_login role)
  meaning post_lanes_create ps =
      if_bound (echo.lane_body h.body) >>? λ lane. some (create_lane lane)
  meaning get_lanes_list ps = some list_lanes
  meaning post_lanes_lane_id_schedule_create ps = echo.uuid (param_of ps) >>? λ id.
      if_bound (echo.schedule_body h.body) >>? λ b. some (create_schedule id b)
  meaning get_lanes_lane_id_slots_list ps = echo.uuid (param_of ps) >>? λ id.
      h.query "date" >>? λ t. echo.date t >>? λ date. some (list_slots id date)
  meaning post_login ps = if_bound (echo.login_body h.body) >>? λ l. some (login l)
  meaning post_register ps = if_bound (echo.register_body h.body) >>? λ r. some (register r)

  abbrev pub on_route : Option (Operation × List String) → Option Request
  on_route none = none
  on_route (some (o, ps)) = meaning o ps

  abbrev pub understood : Option Request
  understood = on_route (echo.find routes h.method h.path)

  abbrev pub events_of : Option Request → List Event
  events_of none = []
  events_of (some q) = request h.authorization q ∷ []

module _ {B : Type 0} (echo : Echo B) where
  -- The events that arrivals are: a request that means one of the interface, with its header, and each
  -- tick of the generator.
  unfoldable pub events : List (Arrival B) → List Event
  events [] = []
  events (http h ∷ arrivals) = events_of echo h (understood echo h) ++ events arrivals
  events (tick ∷ arrivals) = generation ∷ events arrivals
