-- ===== src/Server/Wire/Clients.antt =====
-- Clients of app/internal/api/api.gen.go: the routes that a request fits, how a request is written, and
-- what is expected of echo.
use mathlib.Core.Option
use strike_reserve.Base.{
  ℕ, ◌≡◌, String, Bool, true, false, ◌&&◌, ◌==◌, List, [], ◌∷◌, Option, none, some, length, str_eq,
  if◌then◌else◌,
}
use strike_reserve.Base.Int.{ℤ}
use strike_reserve.Models.{UserRole, UserLogin, UserRegister, LaneCreate}
use strike_reserve.Models.Hms.{Text}
use strike_reserve.Handler.Lanes.{ScheduleBody}
use strike_reserve.Server.{
  Request, dummy_login, login, register, create_booking, cancel_booking, my_bookings, list_bookings,
  create_lane, list_lanes, create_schedule, list_slots,
}
use strike_reserve.Server.Routes.{Method, get, post, Piece, word, param, Entry, Operation}
use strike_reserve.Server.Wire.{Echo, Http, bound}

abbrev same_method : Method → Method → Bool
same_method get get = true
same_method post post = true
same_method _ _ = false

-- The texts of the parameters, where the words of the pieces are those of the path.
unfoldable pub agree : List Piece → List String → Option (List String)
agree [] [] = some []
agree (word a ∷ pieces) (t ∷ path) =
    let rest = agree pieces path in if str_eq a t then rest else none
agree (param a ∷ pieces) (t ∷ path) = Option.map (λ ps. t ∷ ps) (agree pieces path)
agree _ _ = none

abbrev fits : Method → List String → Entry → Option (List String)
fits m path e =
    if same_method e.method m && length e.path == length path then agree e.path path else none

abbrev with_match :
    Operation
    → Option (List String)
    → List (Operation × List String)
    → List (Operation × List String)
with_match o none rest = rest
with_match o (some ps) rest = (o, ps) ∷ rest

-- The routes that a request fits, with the texts of their parameters.
unfoldable pub matching : List Entry → Method → List String → List (Operation × List String)
unfolding agree
matching [] m path = []
matching (e ∷ table) m path = with_match e.operation (fits m path e) (matching table m path)

-- A client writes identifiers, numbers and days in texts, and bodies.
pub record Client (B : Type 0) : Type 0 where
  pub id_text : ℕ → String
  pub int_text : ℤ → String
  pub date_text : ℕ → String
  pub no_body : B
  pub slot_body : ℕ → B
  pub role_body : UserRole → B
  pub lane_body : LaneCreate → B
  pub schedule_body : ScheduleBody → B
  pub login_body : UserLogin → B
  pub register_body : UserRegister → B

-- echo goes to the only route that a request fits.
pub record IsRouter {B : Type 0} (echo : Echo B) : Type 0 where
  pub alone :
      (table : List Entry) (m : Method) (path : List String) (o : Operation) (ps : List String)
      → matching table m path ≡ (o, ps) ∷ []
      → echo.find table m path ≡ some (o, ps)

-- What the client writes of a request is read as it was meant. It is not for each request: a number
-- that is no int, a day after the year 9999 or an address that is none is refused.
module _ {B : Type 0} (echo : Echo B) (c : Client B) where
  abbrev pub ReadsId : ℕ → Type 0
  ReadsId id = echo.uuid (c.id_text id) ≡ some id

  abbrev pub ReadsInt : Option ℤ → Type 0
  ReadsInt none = Unit
  ReadsInt (some z) = echo.integer (c.int_text z) ≡ some z

  abbrev pub Reads : Request → Type 0
  Reads (dummy_login role) = echo.role_body (c.role_body role) ≡ bound role
  Reads (login l) = echo.login_body (c.login_body l) ≡ bound l
  Reads (register r) = echo.register_body (c.register_body r) ≡ bound r
  Reads (create_booking slot_id) = echo.slot_body (c.slot_body slot_id) ≡ bound slot_id
  Reads (cancel_booking id) = ReadsId id
  Reads my_bookings = Unit
  Reads (list_bookings page size) = ReadsInt page × ReadsInt size
  Reads (create_lane body) = echo.lane_body (c.lane_body body) ≡ bound body
  Reads list_lanes = Unit
  Reads (create_schedule lane_id body) =
      ReadsId lane_id × (echo.schedule_body (c.schedule_body body) ≡ bound body)
  Reads (list_slots lane_id date) = ReadsId lane_id × (echo.date (c.date_text date) ≡ some date)

module _ {B : Type 0} (c : Client B) (header : Text) where
  abbrev written : Method → List String → (String → Option String) → B → Http B
  written m path query body = record {
    method = m;
    path = path;
    query = query;
    body = body;
    authorization = header;
  }

  abbrev no_query : String → Option String
  no_query name = none

  -- The request of the interface, as a client of it writes it.
  unfoldable pub write : Request → Http B
  write (dummy_login role) = written post ("dummyLogin" ∷ []) no_query (c.role_body role)
  write (login l) = written post ("login" ∷ []) no_query (c.login_body l)
  write (register r) = written post ("register" ∷ []) no_query (c.register_body r)
  write (create_booking slot_id) =
      written post ("bookings" ∷ "create" ∷ []) no_query (c.slot_body slot_id)
  write (cancel_booking id) =
      written post ("bookings" ∷ c.id_text id ∷ "cancel" ∷ []) no_query c.no_body
  write my_bookings = written get ("bookings" ∷ "my" ∷ []) no_query c.no_body
  write (list_bookings page size) =
      written get ("bookings" ∷ "list" ∷ [])
        (λ name.
          if str_eq name "page"
          then Option.map c.int_text page
          else if str_eq name "pageSize"
          then Option.map c.int_text size
          else none)
        c.no_body
  write (create_lane body) = written post ("lanes" ∷ "create" ∷ []) no_query (c.lane_body body)
  write list_lanes = written get ("lanes" ∷ "list" ∷ []) no_query c.no_body
  write (create_schedule lane_id body) =
      written post ("lanes" ∷ c.id_text lane_id ∷ "schedule" ∷ "create" ∷ []) no_query
        (c.schedule_body body)
  write (list_slots lane_id date) =
      written get ("lanes" ∷ c.id_text lane_id ∷ "slots" ∷ "list" ∷ [])
        (λ name. if str_eq name "date" then some (c.date_text date) else none) c.no_body
