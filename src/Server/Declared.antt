-- ===== src/Server/Declared.antt =====
-- The types of responses in app/internal/api/api.gen.go: the statuses that an operation may answer with.
use strike_reserve.Base.{
  ℕ, ◌==◌, ◌≡◌, refl, Bool, true, false, List, [], ◌∷◌, Option, none, some, any, if◌then◌else◌,
}
use strike_reserve.Errors.{Error, panic, ServiceError, is_service}
use strike_reserve.Models.{User, Lane, Schedule, Slot, Booking, BookingList}
use strike_reserve.Models.Hms.{Text}
use strike_reserve.World.{World}
use strike_reserve.Exec.{Exec, Result, ok, err}
use strike_reserve.Handler.Api.{Response, internal, to_api_schedule, ApiSchedule}
use strike_reserve.Handler.Bookings.{
  Handle, answer, proceed, created, cancelled_response, listed, page_listed,
}
use strike_reserve.Handler.Auth.{token_response, registered}
use strike_reserve.Handler.Lanes.{
  lane_created, lanes_listed, show_schedule, schedule_created, slots_listed,
}
use strike_reserve.Server.{
  Request, status, dummy_login, login, register, create_booking, cancel_booking, my_bookings,
  list_bookings, create_lane, list_lanes, create_schedule, list_slots,
}

unfoldable pub declared : Request → List ℕ
declared (dummy_login role) = 200 ∷ 400 ∷ 500 ∷ []
declared (login l) = 200 ∷ 401 ∷ 500 ∷ []
declared (register r) = 201 ∷ 400 ∷ 500 ∷ []
declared (create_booking slot_id) = 201 ∷ 400 ∷ 401 ∷ 403 ∷ 404 ∷ 409 ∷ 500 ∷ []
declared (cancel_booking id) = 200 ∷ 401 ∷ 403 ∷ 404 ∷ 500 ∷ []
declared my_bookings = 200 ∷ 401 ∷ 403 ∷ 500 ∷ []
declared (list_bookings page size) = 200 ∷ 400 ∷ 401 ∷ 403 ∷ 500 ∷ []
declared (create_lane body) = 201 ∷ 400 ∷ 401 ∷ 403 ∷ 500 ∷ []
declared list_lanes = 200 ∷ 401 ∷ 500 ∷ []
declared (create_schedule lane_id body) = 201 ∷ 400 ∷ 401 ∷ 403 ∷ 404 ∷ 409 ∷ 500 ∷ []
declared (list_slots lane_id date) = 200 ∷ 400 ∷ 401 ∷ 404 ∷ 500 ∷ []

-- A status that is among them, or none because the connection is closed.
abbrev pub Allowed : List ℕ → Option ℕ → Type 0
Allowed ns none = Unit
Allowed ns (some n) = any (λ k. k == n) ns ≡ true

pub data Fits {B : Type 0} (ns : List ℕ) (r : Response B) : Type 0 where
  fits : Allowed ns (status r) → Fits ns r

pub allowed : {B : Type 0} {ns : List ℕ} {r : Response B} → Fits ns r → Allowed ns (status r)
allowed (fits a) = a

abbrev pub Handled : {C B : Type 0} → List ℕ → Handle C B → Type 0
Handled {C} ns h = (w : World C) → Fits ns (h w).0

module _ (ns : List ℕ) where
  pub if-Fits :
      {B : Type 0} (b : Bool) (x y : Response B)
      → Fits ns x
      → Fits ns y
      → Fits ns (if b then x else y)
  if-Fits true x y f g = f
  if-Fits false x y f g = g

  pub internal-Fits :
      {B : Type 0} (e : Error) → any (λ k. k == 500) ns ≡ true → Fits {B = B} ns (internal e)
  internal-Fits panic h = fits tt
  internal-Fits (Error.repository r) h = fits h
  internal-Fits (Error.wrapped r t) h = fits h
  internal-Fits (Error.service r) h = fits h
  internal-Fits Error.no_slots h = fits h
  internal-Fits (Error.foreign t) h = fits h

  pub if-Handled :
      {C B : Type 0} (b : Bool) (x y : Handle C B)
      → Handled ns x
      → Handled ns y
      → Handled ns (if b then x else y)
  if-Handled true x y f g = f
  if-Handled false x y f g = g

  pub answer-Handled :
      {C A B : Type 0} (f : Result A → Response B) (m : Exec C A)
      → ((r : Result A) → Fits ns (f r))
      → Handled ns (answer f m)
  answer-Handled f m h w = h (m w).0

  pub proceed-Handled :
      {C A B : Type 0} (k : Result A → Handle C B) (m : Exec C A)
      → ((r : Result A) → Handled ns (k r))
      → Handled ns (proceed k m)
  proceed-Handled k m h w = h (m w).0 (m w).1

abbrev pub booking_statuses : List ℕ
booking_statuses = 201 ∷ 400 ∷ 401 ∷ 403 ∷ 404 ∷ 409 ∷ 500 ∷ []

pub created-Fits : (r : Result Booking) → Fits booking_statuses (created r)
created-Fits (ok b) = fits refl
created-Fits (err e) =
    if-Fits _ (is_service ServiceError.slot_not_existing e) _ _ (fits refl)
      (if-Fits _ (is_service ServiceError.slot_is_used e) _ _ (fits refl) (internal-Fits _ e refl))

pub cancelled_response-Fits :
    (r : Result Booking) → Fits (200 ∷ 401 ∷ 403 ∷ 404 ∷ 500 ∷ []) (cancelled_response r)
cancelled_response-Fits (ok b) = fits refl
cancelled_response-Fits (err e) =
    if-Fits _ (is_service ServiceError.not_found e) _ _ (fits refl)
      (if-Fits _ (is_service ServiceError.forbidden e) _ _ (fits refl) (internal-Fits _ e refl))

pub listed-Fits : (r : Result (List Booking)) → Fits (200 ∷ 401 ∷ 403 ∷ 500 ∷ []) (listed r)
listed-Fits (ok b) = fits refl
listed-Fits (err e) = internal-Fits _ e refl

pub page_listed-Fits :
    (p n : ℕ) (r : Result BookingList) → Fits (200 ∷ 400 ∷ 401 ∷ 403 ∷ 500 ∷ []) (page_listed p n r)
page_listed-Fits p n (ok b) = fits refl
page_listed-Fits p n (err e) = internal-Fits _ e refl

pub token_response-Fits :
    (ns : List ℕ) (r : Result Text)
    → any (λ k. k == 200) ns ≡ true
    → any (λ k. k == 500) ns ≡ true
    → Fits ns (token_response r)
token_response-Fits ns (ok b) h k = fits h
token_response-Fits ns (err e) h k = internal-Fits ns e k

pub registered-Fits : (r : Result User) → Fits (201 ∷ 400 ∷ 500 ∷ []) (registered r)
registered-Fits (ok b) = fits refl
registered-Fits (err e) =
    if-Fits _ (is_service ServiceError.invalid_email_or_password e) _ _ (fits refl)
      (internal-Fits _ e refl)

pub lane_created-Fits : (r : Result Lane) → Fits (201 ∷ 400 ∷ 401 ∷ 403 ∷ 500 ∷ []) (lane_created r)
lane_created-Fits (ok b) = fits refl
lane_created-Fits (err e) = internal-Fits _ e refl

pub lanes_listed-Fits : (r : Result (List Lane)) → Fits (200 ∷ 401 ∷ 500 ∷ []) (lanes_listed r)
lanes_listed-Fits (ok b) = fits refl
lanes_listed-Fits (err e) = internal-Fits _ e refl

pub show_schedule-Fits : (o : Option ApiSchedule) → Fits booking_statuses (show_schedule o)
show_schedule-Fits none = fits tt
show_schedule-Fits (some s) = fits refl

pub schedule_created-Fits : (r : Result Schedule) → Fits booking_statuses (schedule_created r)
schedule_created-Fits (ok s) = show_schedule-Fits (to_api_schedule s)
schedule_created-Fits (err e) =
    if-Fits _ (is_service ServiceError.lane_not_found e) _ _ (fits refl) (
      if-Fits _ (is_service ServiceError.already_exists e) _ _ (fits refl) (internal-Fits _ e refl))

pub slots_listed-Fits :
    (r : Result (List Slot)) → Fits (200 ∷ 400 ∷ 401 ∷ 404 ∷ 500 ∷ []) (slots_listed r)
slots_listed-Fits (ok s) = fits refl
slots_listed-Fits (err e) =
    if-Fits _ (is_service ServiceError.lane_not_found e) _ _ (fits refl) (internal-Fits _ e refl)
