-- ===== src/Server/Wire/Served.antt =====
-- That requests reach the handlers of app/internal/handler as what they mean, and that no other request
-- does anything.
use strike_reserve.Base.{
  String, ◌++◌, ℕ, ◌≡◌, refl, sym, ap, ◌∙◌, List, [], ◌∷◌, Option, none, some,
}
use strike_reserve.Models.{Claims}
use strike_reserve.World.{World}
use strike_reserve.Service.Auth.{validate_token}
use strike_reserve.Handler.Middleware.{Refusal, Gate, next, refuse, jwt_middleware}
use strike_reserve.Server.{
  Server, Request, Event, generation, route, pass, serve, step, history, dummy_login, login,
  register, create_booking, cancel_booking, my_bookings, list_bookings, create_lane, list_lanes,
  create_schedule, list_slots,
}
use strike_reserve.Server.Routes.{
  Operation, post_bookings_create, get_bookings_list, get_bookings_my,
  post_bookings_booking_id_cancel, post_dummy_login, post_lanes_create, get_lanes_list,
  post_lanes_lane_id_schedule_create, get_lanes_lane_id_slots_list, post_login, post_register,
  routes,
}
use mathlib.Core.Option
use strike_reserve.Server.Wire.{
  given, Echo, Http, Bound, bound, refused, bind, Act, strict_create_booking, strict_dummy_login,
  strict_create_lane, strict_create_schedule, strict_login, strict_register, list_bookings_query,
  cancel_booking_path, create_schedule_path, list_slots_path, operate, found, passed, serve_http,
  read, optional, required, param_of, Arrival, http, tick, http_history,
}
use strike_reserve.Server.Wire.Meaning.{
  ◌>>?◌, if_bound, maybe, meaning, on_route, understood, events_of, events,
}

-- The answer of a status with nothing done, or that of the handler that was meant.
pub data Routed {C : Type 0} (s : Server C) (user : Option Claims) (w : World C)
    : Option Request → Option ℕ × World C → Type 0 where
  turned_away : (n : ℕ) → Routed s user w none (some n, w)
  asked : (q : Request) → Routed s user w (some q) (route s user q w)

module _ {C : Type 0} (s : Server C) (user : Option Claims) (w : World C) where
  module _ {A : Type 0} (k : A → Act C) where
    bound-Routed :
        (b : Bound A) (f : A → Option Request)
        → ((a : A) → Routed s user w (f a) (k a w))
        → Routed s user w (if_bound b >>? f) (bind b k w)
    bound-Routed (bound a) f r = r a
    bound-Routed (refused n) f r = turned_away n

    read-Routed :
        (o : Option A) (f : A → Option Request)
        → ((a : A) → Routed s user w (f a) (k a w))
        → Routed s user w (o >>? f) (bind (read o) k w)
    read-Routed (some a) f r = r a
    read-Routed none f r = turned_away 400

    required-Routed :
        (g : String → Option A) (t : Option String) (f : A → Option Request)
        → ((a : A) → Routed s user w (f a) (k a w))
        → Routed s user w (t >>? λ x. g x >>? f) (bind (required g t) k w)
    required-Routed g none f r = turned_away 400
    required-Routed g (some x) f r = read-Routed (g x) f r

  given-Routed :
      {A : Type 0} (k : Option A → Act C) (o : Option A) (f : Option A → Option Request)
      → ((a : Option A) → Routed s user w (f a) (k a w))
      → Routed s user w (Option.map some o >>? f) (bind (given o) k w)
  given-Routed k (some a) f r = r (some a)
  given-Routed k none f r = turned_away 400

  optional-Routed :
      {A : Type 0} (k : Option A → Act C) (g : String → Option A) (t : Option String)
      (f : Option A → Option Request)
      → ((a : Option A) → Routed s user w (f a) (k a w))
      → Routed s user w (maybe g t >>? f) (bind (optional g t) k w)
  optional-Routed k g none f r = r none
  optional-Routed k g (some x) f r = given-Routed k (g x) f r

module _ {C B : Type 0} (s : Server C) (echo : Echo B) (user : Option Claims) (h : Http B)
    (w : World C) where
  operate-Routed :
      (o : Operation) (ps : List String)
      → Routed s user w (meaning echo h o ps) (operate s echo user h o ps w)
  unfolding strict_create_booking strict_dummy_login strict_create_lane strict_create_schedule
      strict_login strict_register list_bookings_query cancel_booking_path create_schedule_path
      list_slots_path
  operate-Routed post_bookings_create ps =
      bound-Routed s user w _ (echo.slot_body h.body) _ (λ id. asked (create_booking id))
  operate-Routed get_bookings_list ps =
      optional-Routed s user w _ echo.integer (h.query "page") _ (λ page.
        optional-Routed s user w _ echo.integer (h.query "pageSize") _
          (λ size. asked (list_bookings page size)))
  operate-Routed get_bookings_my ps = asked my_bookings
  operate-Routed post_bookings_booking_id_cancel ps =
      read-Routed s user w _ (echo.uuid (param_of ps)) _ (λ id. asked (cancel_booking id))
  operate-Routed post_dummy_login ps =
      bound-Routed s user w _ (echo.role_body h.body) _ (λ role. asked (dummy_login role))
  operate-Routed post_lanes_create ps =
      bound-Routed s user w _ (echo.lane_body h.body) _ (λ lane. asked (create_lane lane))
  operate-Routed get_lanes_list ps = asked list_lanes
  operate-Routed post_lanes_lane_id_schedule_create ps =
      read-Routed s user w _ (echo.uuid (param_of ps)) _ (λ id.
        bound-Routed s user w _ (echo.schedule_body h.body) _ (λ b. asked (create_schedule id b)))
  operate-Routed get_lanes_lane_id_slots_list ps =
      read-Routed s user w _ (echo.uuid (param_of ps)) _ (λ id.
        required-Routed s user w _ echo.date (h.query "date") _
          (λ date. asked (list_slots id date)))
  operate-Routed post_login ps =
      bound-Routed s user w _ (echo.login_body h.body) _ (λ l. asked (login l))
  operate-Routed post_register ps =
      bound-Routed s user w _ (echo.register_body h.body) _ (λ r. asked (register r))

  found-Routed :
      (o : Option (Operation × List String))
      → Routed s user w (on_route echo h o) (found s echo h user o w)
  found-Routed none = turned_away _
  found-Routed (some (o, ps)) = operate-Routed o ps

module _ {C B : Type 0} (s : Server C) (echo : Echo B) where
  Routed-history :
      (h : Http B) (user : Option Claims) (w : World C) (o : Option Request)
      (r : Option ℕ × World C)
      → jwt_middleware (validate_token s.jwt s.auth) h.authorization ≡ next user
      → Routed s user w o r
      → r.1 ≡ history s (events_of echo h o) w
  unfolding history step serve
  Routed-history h user w _ _ e (turned_away n) = refl
  Routed-history h user w _ _ e (asked q) = ap (λ g. (pass s g q w).1) (sym e)

  refused-history :
      (h : Http B) (w : World C) (r : Refusal) (o : Option Request)
      → jwt_middleware (validate_token s.jwt s.auth) h.authorization ≡ refuse r
      → w ≡ history s (events_of echo h o) w
  unfolding history step serve
  refused-history h w r none e = refl
  refused-history h w r (some q) e = ap (λ g. (pass s g q w).1) (sym e)

  passed-history :
      (h : Http B) (w : World C) (g : Gate)
      → jwt_middleware (validate_token s.jwt s.auth) h.authorization ≡ g
      → (passed s echo h g w).1 ≡ history s (events_of echo h (understood echo h)) w
  passed-history h w (refuse r) e = refused-history h w r (understood echo h) e
  passed-history h w (next user) e =
      Routed-history h user w _ _ e
        (found-Routed s echo user h w (echo.find routes h.method h.path))

  history-append :
      (first second : List Event) (w : World C)
      → history s (first ++ second) w ≡ history s second (history s first w)
  unfolding history
  history-append [] second w = refl
  history-append (e ∷ first) second w = history-append first second (step s e w)

  -- Whatever requests reach the server, with whatever methods, paths, parameters, headers and bodies,
  -- and whatever ticks of the generator: they leave the world as the events do, one after another, that
  -- they mean. A request means that of the interface which is read off its route and its named
  -- parameters or its body; one from which none can be read means no event, and so leaves the world as
  -- it is.
  pub http_history-history :
      (arrivals : List (Arrival B)) (w : World C)
      → http_history s echo arrivals w ≡ history s (events echo arrivals) w
  unfolding http_history serve_http history step events
  http_history-history [] w = refl
  http_history-history (http h ∷ arrivals) w =
      http_history-history arrivals (serve_http s echo h w).1
      ∙ ap (history s (events echo arrivals)) (passed-history h w _ refl)
      ∙ sym (history-append (events_of echo h (understood echo h)) (events echo arrivals) w)
  http_history-history (tick ∷ arrivals) w = http_history-history arrivals (step s generation w)
