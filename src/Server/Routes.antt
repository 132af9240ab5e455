-- ===== src/Server/Routes.antt =====
-- RegisterHandlers of app/internal/api/api.gen.go: the table of routes. The route of the information page
-- and that of swagger are not in it.
use strike_reserve.Base.{String, List, [], ◌∷◌}

pub data Method : Type 0 where
  get post other_method : Method

-- The methods of ServerInterface.
pub data Operation : Type 0 where
  post_bookings_create get_bookings_list get_bookings_my post_bookings_booking_id_cancel
        post_dummy_login post_lanes_create get_lanes_list post_lanes_lane_id_schedule_create
        get_lanes_lane_id_slots_list post_login post_register :
      Operation

-- A piece of a path between slashes: a word, or a name after a colon.
pub data Piece : Type 0 where
  word : String → Piece
  param : String → Piece

pub record Entry : Type 0 where
  pub method : Method
  pub path : List Piece
  pub operation : Operation

abbrev entry : Method → List Piece → Operation → Entry
entry m p o = record { method = m; path = p; operation = o }

-- RegisterHandlers, where the base URL is empty
abbrev pub routes : List Entry
routes =
    entry post (word "bookings" ∷ word "create" ∷ []) post_bookings_create
    ∷ entry get (word "bookings" ∷ word "list" ∷ []) get_bookings_list
    ∷ entry get (word "bookings" ∷ word "my" ∷ []) get_bookings_my
    ∷ entry post (word "bookings" ∷ param "bookingId" ∷ word "cancel" ∷ [])
        post_bookings_booking_id_cancel
    ∷ entry post (word "dummyLogin" ∷ []) post_dummy_login
    ∷ entry post (word "lanes" ∷ word "create" ∷ []) post_lanes_create
    ∷ entry get (word "lanes" ∷ word "list" ∷ []) get_lanes_list
    ∷ entry post (word "lanes" ∷ param "laneId" ∷ word "schedule" ∷ word "create" ∷ [])
        post_lanes_lane_id_schedule_create
    ∷ entry get (word "lanes" ∷ param "laneId" ∷ word "slots" ∷ word "list" ∷ [])
        get_lanes_lane_id_slots_list
    ∷ entry post (word "login" ∷ []) post_login
    ∷ entry post (word "register" ∷ []) post_register
    ∷ []
