-- ===== src/Server/Conforms.antt =====
-- That the handlers of app/internal/handler answer with the statuses that their interface declares.
use strike_reserve.Base.{ℕ, ◌==◌, refl, not, [], ◌∷◌, Option, none, some, str_eq}
use strike_reserve.Base.Int.{pred_u64}
use strike_reserve.Clock.{midnight}
use strike_reserve.Errors.{ServiceError, is_service}
use strike_reserve.Models.{Claims, User, role_user, role_admin, role_valid, lane_type_valid}
use strike_reserve.World.{World}
use strike_reserve.Exec.{Result, ok, err}
use strike_reserve.Service.Bookings as BookingService
use strike_reserve.Service.Lanes as LaneService
use strike_reserve.Service.Users as UserService
use strike_reserve.Service.Auth.{generate_token}
use strike_reserve.Handler.Bookings.{
  created, cancelled_response, listed, create_as, cancel_as, list_as, page_refused,
  page_size_refused, param_or, post_bookings_create, post_bookings_booking_id_cancel,
  get_bookings_my, get_bookings_list,
}
use strike_reserve.Handler.Auth.{
  token_response, registered, dummy_token, login_token, post_dummy_login, post_login, post_register,
}
use strike_reserve.Handler.Lanes.{
  schedule_of, lane_created, lanes_listed, schedule_created, slots_listed, post_lanes_create,
  get_lanes_list, post_lanes_lane_id_schedule_create, get_lanes_lane_id_slots_list,
}
use strike_reserve.Server.{
  Server, Request, route, dummy_login, login, register, create_booking, cancel_booking, my_bookings,
  list_bookings, create_lane, list_lanes, create_schedule, list_slots,
}
use strike_reserve.Server.Declared.{
  declared, Allowed, fits, allowed, Handled, booking_statuses, if-Fits, internal-Fits, if-Handled,
  answer-Handled, proceed-Handled, created-Fits, cancelled_response-Fits, listed-Fits,
  page_listed-Fits, token_response-Fits, registered-Fits, lane_created-Fits, lanes_listed-Fits,
  schedule_created-Fits, slots_listed-Fits,
}

module _ {C : Type 0} (s : Server C) where
  create_as-Handled :
      (slot_id : ℕ) (o : Option ℕ)
      → Handled booking_statuses (create_as s.env s.parse_id s.tx slot_id o)
  create_as-Handled slot_id none = λ w. fits refl
  create_as-Handled slot_id (some id) =
      answer-Handled _ created (BookingService.create s.env s.tx id slot_id) created-Fits

  cancel_as-Handled :
      (id : ℕ) (o : Option ℕ)
      → Handled (200 ∷ 401 ∷ 403 ∷ 404 ∷ 500 ∷ []) (cancel_as s.env s.parse_id s.tx id o)
  cancel_as-Handled id none = λ w. fits refl
  cancel_as-Handled id (some user_id) =
      answer-Handled _ cancelled_response (BookingService.cancel s.env s.tx id user_id)
        cancelled_response-Fits

  list_as-Handled :
      (o : Option ℕ) → Handled (200 ∷ 401 ∷ 403 ∷ 500 ∷ []) (list_as s.env s.parse_id o)
  list_as-Handled none = λ w. fits refl
  list_as-Handled (some user_id) =
      answer-Handled _ listed (BookingService.get_by_user_id s.env user_id) listed-Fits

  dummy_token-Handled :
      (r : Result User)
      → Handled (200 ∷ 400 ∷ 500 ∷ []) (dummy_token s.env s.jwt s.auth s.id_text r)
  dummy_token-Handled (ok user) =
      answer-Handled _ token_response (generate_token s.env s.jwt s.id_text s.auth user)
        (λ r. token_response-Fits _ r refl refl)
  dummy_token-Handled (err e) = λ w. internal-Fits _ e refl

  login_token-Handled :
      (r : Result User)
      → Handled (200 ∷ 401 ∷ 500 ∷ []) (login_token s.env s.jwt s.auth s.id_text r)
  login_token-Handled (ok user) =
      answer-Handled _ token_response (generate_token s.env s.jwt s.id_text s.auth user)
        (λ r. token_response-Fits _ r refl refl)
  login_token-Handled (err e) = λ w.
      if-Fits _ (is_service ServiceError.invalid_email_or_password e) _ _ (fits refl)
        (internal-Fits _ e refl)

  -- Whatever is asked, by whomever, and whatever fails: a handler answers with a status that the
  -- interface declares for its operation, or closes the connection by a panic.
  pub route-Allowed :
      (user : Option Claims) (q : Request) (w : World C) → Allowed (declared q) (route s user q w).0
  unfolding route declared post_dummy_login post_login post_register post_bookings_create
      post_bookings_booking_id_cancel get_bookings_my get_bookings_list post_lanes_create
      get_lanes_list post_lanes_lane_id_schedule_create get_lanes_lane_id_slots_list
  route-Allowed user (dummy_login role) w = allowed (
      (if-Handled _ (not (role_valid role)) _ _ (λ w. fits refl)
          (proceed-Handled _ (dummy_token s.env s.jwt s.auth s.id_text)
            (UserService.get_or_create_dummy s.env s.id_text role) dummy_token-Handled))
        w)
  route-Allowed user (login l) w = allowed (
      (if-Handled _ (not (s.validator.login_ok l)) _ _ (λ w. fits refl)
          (proceed-Handled _ (login_token s.env s.jwt s.auth s.id_text)
            (UserService.login s.env s.bcrypt l) login_token-Handled))
        w)
  route-Allowed user (register r) w = allowed (
      (if-Handled _ (not (role_valid r.role)) _ _ (λ w. fits refl)
          (if-Handled _ (not (s.validator.register_ok r)) _ _ (λ w. fits refl)
            (answer-Handled _ registered (UserService.register s.env s.bcrypt s.cost r)
              registered-Fits)))
        w)
  route-Allowed none (create_booking slot_id) w = refl
  route-Allowed (some user) (create_booking slot_id) w = allowed (
      (if-Handled _ (not (str_eq user.role role_user)) _ _ (λ w. fits refl)
          (create_as-Handled slot_id (s.parse_id user.user_id)))
        w)
  route-Allowed none (cancel_booking id) w = refl
  route-Allowed (some user) (cancel_booking id) w =
      allowed ((cancel_as-Handled id (s.parse_id user.user_id)) w)
  route-Allowed none my_bookings w = refl
  route-Allowed (some user) my_bookings w = allowed ((list_as-Handled (s.parse_id user.user_id)) w)
  route-Allowed none (list_bookings page size) w = refl
  route-Allowed (some user) (list_bookings page size) w = allowed (
      (if-Handled _ (not (str_eq user.role role_admin)) _ _ (λ w. fits refl)
          (if-Handled _ (page_refused s.pages page) _ _ (λ w. fits refl)
            (if-Handled _ (page_size_refused s.pages size) _ _ (λ w. fits refl)
              (answer-Handled _ _
                (BookingService.get_list s.env (param_or s.pages.default_page_size size)
                  (pred_u64 (param_or s.pages.default_page page)))
                (page_listed-Fits _ _)))))
        w)
  route-Allowed none (create_lane body) w = refl
  route-Allowed (some user) (create_lane body) w = allowed (
      (if-Handled _ (not (str_eq user.role role_admin)) _ _ (λ w. fits refl)
          (if-Handled _ (not (lane_type_valid body.lane_type)) _ _ (λ w. fits refl)
            (answer-Handled _ lane_created (LaneService.create_lane s.env body) lane_created-Fits)))
        w)
  route-Allowed none list_lanes w = refl
  route-Allowed (some user) list_lanes w =
      allowed
        ((answer-Handled _ lanes_listed (LaneService.get_all_lanes s.env) lanes_listed-Fits) w)
  route-Allowed none (create_schedule lane_id body) w = refl
  route-Allowed (some user) (create_schedule lane_id body) w = allowed (
      (if-Handled _ (not (str_eq user.role role_admin)) _ _ (λ w. fits refl)
          (if-Handled _ (not (s.schedule_ok (schedule_of lane_id body))) _ _ (λ w. fits refl)
            (answer-Handled _ schedule_created
              (LaneService.create_schedule s.env s.tx s.lanes (schedule_of lane_id body))
              schedule_created-Fits)))
        w)
  route-Allowed none (list_slots lane_id date) w = refl
  route-Allowed (some user) (list_slots lane_id date) w = allowed (
      (if-Handled _ (midnight date == 0) _ _ (λ w. fits refl)
          (answer-Handled _ slots_listed
            (LaneService.get_available_slots s.env lane_id (midnight date)) slots_listed-Fits))
        w)
