-- ===== src/Server/Wire/Written.antt =====
-- That app/internal/api/api.gen.go understands each request of its interface as its clients write it.
use mathlib.Core.Option
use strike_reserve.Base.{◌≡◌, refl, ap, ◌∙◌, String, List, [], ◌∷◌, Option, none, some}
use strike_reserve.Base.Int.{ℤ}
use strike_reserve.Models.{Claims}
use strike_reserve.Models.Hms.{Text}
use strike_reserve.World.{World}
use strike_reserve.Handler.Middleware.{Gate, next, refuse}
use strike_reserve.Server.{
  Server, Request, route, pass, serve, dummy_login, login, register, create_booking, cancel_booking,
  my_bookings, list_bookings, create_lane, list_lanes, create_schedule, list_slots,
}
use strike_reserve.Server.Routes.{
  Operation, post_bookings_create, get_bookings_list, get_bookings_my,
  post_bookings_booking_id_cancel, post_dummy_login, post_lanes_create, get_lanes_list,
  post_lanes_lane_id_schedule_create, get_lanes_lane_id_slots_list, post_login, post_register,
  routes,
}
use strike_reserve.Server.Wire.{
  Echo, Http, bound, bind, strict_create_booking, strict_dummy_login, strict_create_lane,
  strict_create_schedule, strict_login, strict_register, list_bookings_query, cancel_booking_path,
  create_schedule_path, list_slots_path, operate, found, passed, serve_http, read, optional,
}
use strike_reserve.Server.Wire.Clients.{Client, IsRouter, ReadsInt, Reads, matching, agree, write}

module _ {C B : Type 0} (s : Server C) (echo : Echo B) (c : Client B) (u : IsRouter echo)
    (header : Text) (user : Option Claims) (w : World C) where
  -- A request of a route that is found.
  by_route :
      (h : Http B) (o : Operation) (ps : List String)
      → matching routes h.method h.path ≡ (o, ps) ∷ []
      → found s echo h user (echo.find routes h.method h.path) w ≡ operate s echo user h o ps w
  by_route h o ps e = ap (λ x. found s echo h user x w) (u.alone routes h.method h.path o ps e)

  optional-written :
      (o : Option ℤ) → ReadsInt echo c o → optional echo.integer (Option.map c.int_text o) ≡ bound o
  optional-written none h = refl
  optional-written (some z) h = rw h refl

  -- The request is read as it was meant, on the route that it fits.
  route_written :
      (q : Request)
      → Reads echo c q
      → found s echo
          (write c header q)
          user
          (echo.find routes (write c header q).method (write c header q).path)
          w
        ≡ route s user q w
  unfolding write matching agree strict_create_booking strict_dummy_login strict_create_lane
      strict_create_schedule strict_login strict_register list_bookings_query cancel_booking_path
      create_schedule_path list_slots_path
  route_written (dummy_login role) h =
      by_route (write c header (dummy_login role)) post_dummy_login [] refl
      ∙ ap (λ b. bind b (λ r. route s user (dummy_login r)) w) h
  route_written (login l) h =
      by_route (write c header (login l)) post_login [] refl
      ∙ ap (λ b. bind b (λ r. route s user (login r)) w) h
  route_written (register r) h =
      by_route (write c header (register r)) post_register [] refl
      ∙ ap (λ b. bind b (λ r. route s user (register r)) w) h
  route_written (create_booking slot_id) h =
      by_route (write c header (create_booking slot_id)) post_bookings_create [] refl
      ∙ ap (λ b. bind b (λ r. route s user (create_booking r)) w) h
  route_written (cancel_booking id) h =
      by_route (write c header (cancel_booking id)) post_bookings_booking_id_cancel
        (c.id_text id ∷ []) refl
      ∙ ap (λ b. bind (read b) (λ r. route s user (cancel_booking r)) w) h
  route_written my_bookings h = by_route (write c header my_bookings) get_bookings_my [] refl
  route_written (list_bookings page size) h =
      by_route (write c header (list_bookings page size)) get_bookings_list [] refl
      ∙ ap
          (λ a.
            bind a
              (λ p.
                bind (optional echo.integer (Option.map c.int_text size))
                  (λ z. route s user (list_bookings p z)))
              w)
          (optional-written page h.0)
      ∙ ap (λ a. bind a (λ z. route s user (list_bookings page z)) w) (optional-written size h.1)
  route_written (create_lane body) h =
      by_route (write c header (create_lane body)) post_lanes_create [] refl
      ∙ ap (λ b. bind b (λ r. route s user (create_lane r)) w) h
  route_written list_lanes h = by_route (write c header list_lanes) get_lanes_list [] refl
  route_written (create_schedule lane_id body) h =
      by_route (write c header (create_schedule lane_id body)) post_lanes_lane_id_schedule_create
        (c.id_text lane_id ∷ []) refl
      ∙ ap
          (λ b.
            bind (read b)
              (λ l.
                bind (echo.schedule_body (c.schedule_body body))
                  (λ r. route s user (create_schedule l r)))
              w)
          h.0
      ∙ ap (λ b. bind b (λ r. route s user (create_schedule lane_id r)) w) h.1
  route_written (list_slots lane_id date) h =
      by_route (write c header (list_slots lane_id date)) get_lanes_lane_id_slots_list
        (c.id_text lane_id ∷ []) refl
      ∙ ap
          (λ b.
            bind (read b)
              (λ l. bind (read (echo.date (c.date_text date))) (λ d. route s user (list_slots l d)))
              w)
          h.0
      ∙ ap (λ b. bind (read b) (λ d. route s user (list_slots lane_id d)) w) h.1

module _ {C B : Type 0} (s : Server C) (echo : Echo B) (c : Client B) (u : IsRouter echo) where
  gate_written :
      (header : Text) (q : Request) (w : World C) (g : Gate)
      → Reads echo c q
      → passed s echo (write c header q) g w ≡ pass s g q w
  gate_written header q w (refuse r) h = refl
  gate_written header q w (next user) h = route_written s echo c u header user w q h

  -- With an echo that goes to the only route that a request fits: a request of the interface whose own
  -- identifiers, numbers, day and body are read back as a client writes them reaches its own handler
  -- with these values, behind the middleware. It is answered, and changes the world, as the request
  -- that was meant.
  pub serve_http-write :
      (header : Text) (q : Request) (w : World C)
      → Reads echo c q
      → serve_http s echo (write c header q) w ≡ serve s header q w
  unfolding serve_http serve write
  serve_http-write header (dummy_login role) w h = gate_written header (dummy_login role) w _ h
  serve_http-write header q w h = gate_written header q w _ h
