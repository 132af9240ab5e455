-- ===== src/Server/Guards.antt =====
-- Who may do what, by app/internal/handler: one table for the guards at the top of the handlers.
use strike_reserve.Base.{ℕ, ◌≡◌, ap, Option, none, some, str_eq, arith, if◌then◌else◌}
use strike_reserve.Models.{Claims, role_user, role_admin}
use strike_reserve.World.{World}
use strike_reserve.Handler.Bookings
use strike_reserve.Handler.Lanes
use strike_reserve.Server.{
  Server, Request, route, dummy_login, login, register, create_booking, cancel_booking, my_bookings,
  list_bookings, create_lane, list_lanes, create_schedule, list_slots,
}

pub data Access : Type 0 where
  anyone signed_in users admins : Access

unfoldable pub access : Request → Access
access (dummy_login role) = anyone
access (login l) = anyone
access (register r) = anyone
access (create_booking slot_id) = users
access (cancel_booking id) = signed_in
access my_bookings = signed_in
access (list_bookings page size) = admins
access (create_lane body) = admins
access list_lanes = signed_in
access (create_schedule lane_id body) = admins
access (list_slots lane_id date) = signed_in

-- The status with which a caller is turned away, if there is one.
unfoldable pub turned_away : Access → Option Claims → Option ℕ
turned_away anyone user = none
turned_away signed_in none = some 401
turned_away signed_in (some user) = none
turned_away users none = some 401
turned_away users (some user) = if str_eq user.role role_user then none else some 403
turned_away admins none = some 401
turned_away admins (some user) = if str_eq user.role role_admin then none else some 403

module _ {C : Type 0} (s : Server C) where
  -- A request whose caller the table turns away is answered with the table's status, and the world
  -- stays as it was.
  pub route-turned_away :
      (user : Option Claims) (q : Request) (n : ℕ) (w : World C)
      → turned_away (access q) user ≡ some n
      → route s user q w ≡ (some n, w)
  unfolding route turned_away access Bookings.post_bookings_create Bookings.get_bookings_list
      Bookings.post_bookings_booking_id_cancel Bookings.get_bookings_my Lanes.post_lanes_create
      Lanes.get_lanes_list Lanes.post_lanes_lane_id_schedule_create
      Lanes.get_lanes_lane_id_slots_list
  route-turned_away none (dummy_login role) n w h = absurd (cc h)
  route-turned_away none (login l) n w h = absurd (cc h)
  route-turned_away none (register r) n w h = absurd (cc h)
  route-turned_away none (create_booking slot_id) n w h = ap (λ m. (m, w)) h
  route-turned_away none (cancel_booking id) n w h = ap (λ m. (m, w)) h
  route-turned_away none my_bookings n w h = ap (λ m. (m, w)) h
  route-turned_away none (list_bookings page size) n w h = ap (λ m. (m, w)) h
  route-turned_away none (create_lane body) n w h = ap (λ m. (m, w)) h
  route-turned_away none list_lanes n w h = ap (λ m. (m, w)) h
  route-turned_away none (create_schedule lane_id body) n w h = ap (λ m. (m, w)) h
  route-turned_away none (list_slots lane_id date) n w h = ap (λ m. (m, w)) h
  route-turned_away (some user) (dummy_login role) n w h = absurd (cc h)
  route-turned_away (some user) (login l) n w h = absurd (cc h)
  route-turned_away (some user) (register r) n w h = absurd (cc h)
  route-turned_away (some user) (create_booking slot_id) n w h = ground arith
  route-turned_away (some user) (cancel_booking id) n w h = absurd (cc h)
  route-turned_away (some user) my_bookings n w h = absurd (cc h)
  route-turned_away (some user) (list_bookings page size) n w h = ground arith
  route-turned_away (some user) (create_lane body) n w h = ground arith
  route-turned_away (some user) list_lanes n w h = absurd (cc h)
  route-turned_away (some user) (create_schedule lane_id body) n w h = ground arith
  route-turned_away (some user) (list_slots lane_id date) n w h = absurd (cc h)
