-- ===== src/Models.antt =====
-- app/internal/models/models.go: the records that the layers pass to one another.
-- A `uuid.UUID` is an opaque number. A `time.Time` is the number of nanoseconds since Go's zero
-- time (1 January of year 1, UTC). Nil pointers are `none`.
pub mod Hms
use strike_reserve.Base.{ℕ, String, Bool, true, false, List, Option, str_eq, if◌then◌else◌}
use Hms.{Text}

-- The role stays a text: it comes from requests and tokens as one.
abbrev pub UserRole : Type 0
UserRole = String

abbrev pub role_admin : UserRole
role_admin = "admin"

abbrev pub role_user : UserRole
role_user = "user"

unfoldable pub role_valid : UserRole → Bool
role_valid r = if str_eq r role_admin then true else if str_eq r role_user then true else false

abbrev pub LaneType : Type 0
LaneType = String

unfoldable pub lane_type_valid : LaneType → Bool
lane_type_valid t =
    if str_eq t "standard"
    then true
    else if str_eq t "vip"
    then true
    else if str_eq t "pro"
    then true
    else if str_eq t "kids"
    then true
    else false

-- A booking's status is written by the program only, from these two constants.
pub data BookingStatus : Type 0 where
  active cancelled : BookingStatus

abbrev pub is_active : BookingStatus → Bool
is_active active = true
is_active cancelled = false

pub record User : Type 0 where
  pub id : ℕ
  pub email : String
  pub password_hash : Option String
  pub role : UserRole
  pub created_at : ℕ

pub record UserRegister : Type 0 where
  pub email : String
  pub password : String
  pub role : UserRole

pub record UserLogin : Type 0 where
  pub email : String
  pub password : String

pub record Lane : Type 0 where
  pub id : ℕ
  pub name : String
  pub lane_type : LaneType
  pub description : Option String
  pub is_active : Option Bool
  pub created_at : ℕ

pub record LaneCreate : Type 0 where
  pub name : String
  pub description : Option String
  pub lane_type : LaneType

-- Days run from 1 (Monday) to 7 (Sunday); a negative day, which validation refuses, is not modelled.
pub record Schedule : Type 0 where
  pub id : ℕ
  pub lane_id : ℕ
  pub days_of_week : List ℕ
  pub start_time : Text
  pub end_time : Text
  pub created_at : ℕ

pub record Slot : Type 0 where
  pub id : ℕ
  pub lane_id : ℕ
  pub start_time : ℕ
  pub end_time : ℕ

pub record Booking : Type 0 where
  pub id : ℕ
  pub user_id : ℕ
  pub slot_id : ℕ
  pub status : BookingStatus
  pub created_at : ℕ

pub record BookingList : Type 0 where
  pub bookings : List Booking
  pub total : ℕ

-- The claims of a token, with the registered ones that the program sets.
pub record Claims : Type 0 where
  pub user_id : String
  pub role : UserRole
  pub expires_at : ℕ
  pub issued_at : ℕ
  pub subject : String
