-- ===== src/Config.antt =====
-- app/internal/config/config.go: the configuration, the tags it is validated by, and its loading.
-- A duration is a number of nanoseconds. The floating-point numbers are a type of the validator's.
pub mod Valid
pub mod Settings
pub mod Loading
use strike_reserve.Base.{
  ℕ, String, Bool, true, false, ◌&&◌, Option, none, some, List, [], ◌∷◌, str_eq, if◌then◌else◌,
}
use strike_reserve.Base.Int.{ℤ, pos}
use strike_reserve.Models.Hms.{Text}

pub record Redis : Type 0 where
  pub host : String
  pub port : ℤ
  pub password : String
  pub db : ℤ
  pub size : ℤ
  pub duration : ℤ

pub record SlotGenerator : Type 0 where
  pub look_ahead : ℤ
  pub interval : ℤ

pub record Auth : Type 0 where
  pub secret_key : Text
  pub token_duration : ℤ

pub record Conference : Type 0 where
  pub port : ℤ
  pub request_timeout : ℤ

pub record Services : Type 0 where
  pub auth : Auth
  pub conference : Conference
  pub slot_generator : SlotGenerator
  pub slot_duration : ℤ
  pub password_cost : ℤ

pub record Size : Type 0 where
  pub default : ℕ
  pub max : ℕ
  pub min : ℕ

pub record Page : Type 0 where
  pub default : ℕ
  pub min : ℕ
  pub size : Size

pub record App : Type 0 where
  pub port : ℤ
  pub log_level : String
  pub is_prod : Bool
  pub migration_dir : String
  pub shutdown_timeout : ℤ
  pub services : Services
  pub page : Page

pub record Conn : Type 0 where
  pub max : ℤ
  pub min : ℤ
  pub max_life_time : ℤ
  pub max_idle_time : ℤ
  pub connect_timeout : ℤ

pub record Database : Type 0 where
  pub dsn : String
  pub conn : Conn

pub record Retry (F : Type 0) : Type 0 where
  pub backoff : String
  pub base : ℤ
  pub factor : F
  pub max : ℤ
  pub max_attempts : ℤ
  pub jitter : F

pub record Config (F : Type 0) : Type 0 where
  pub app : App
  pub database : Database
  pub retry : Retry F
  pub redis : Redis

-- A tag of `validate:"…"`.
pub data Tag : Type 0 where
  required : Tag
  gt gte lte min : ℕ → Tag
  oneof : List String → Tag

-- github.com/go-playground/validator: whether a value passes a tag. A nested struct is validated by
-- its own tags; "required" asks nothing of a struct itself.
pub record Checks (F : Type 0) : Type 0 where
  pub int : Tag → ℤ → Bool
  pub float : Tag → F → Bool
  pub string : Tag → String → Bool
  pub bytes : Tag → Text → Bool

abbrev pub passes : {A : Type 0} → (Tag → A → Bool) → List Tag → A → Bool
passes check [] a = true
passes check (t ∷ tags) a = check t a && passes check tags a

abbrev pub positive : List Tag
positive = required ∷ gt 0 ∷ []

abbrev pub port_tags : List Tag
port_tags = required ∷ gte 1 ∷ lte 65535 ∷ []

module _ {F : Type 0} (v : Checks F) where
  unfoldable pub valid_redis : Redis → Bool
  valid_redis r =
      passes v.string (required ∷ []) r.host
      && passes v.int port_tags r.port
      && passes v.string (required ∷ []) r.password
      && passes v.int (gte 0 ∷ []) r.db
      && passes v.int (required ∷ gte 1 ∷ []) r.size
      && passes v.int positive r.duration

  unfoldable pub valid_services : Services → Bool
  valid_services s =
      passes v.bytes (required ∷ min 32 ∷ []) s.auth.secret_key
      && passes v.int positive s.auth.token_duration
      && passes v.int port_tags s.conference.port
      && passes v.int positive s.conference.request_timeout
      && passes v.int positive s.slot_generator.look_ahead
      && passes v.int positive s.slot_generator.interval
      && passes v.int positive s.slot_duration
      && passes v.int (required ∷ gte 4 ∷ lte 31 ∷ []) s.password_cost

  -- The numbers of a page are of 64 bits without a sign.
  unfoldable pub valid_page : Page → Bool
  valid_page p =
      passes v.int positive (pos p.default)
      && passes v.int positive (pos p.min)
      && passes v.int positive (pos p.size.default)
      && passes v.int positive (pos p.size.max)
      && passes v.int positive (pos p.size.min)

  unfoldable pub valid_app : App → Bool
  unfolding valid_services valid_page
  valid_app a =
      passes v.int port_tags a.port
      && passes v.string (required ∷ oneof ("debug" ∷ "info" ∷ "warn" ∷ "error" ∷ []) ∷ [])
          a.log_level
      && passes v.string (required ∷ []) a.migration_dir
      && passes v.int positive a.shutdown_timeout
      && valid_services a.services
      && valid_page a.page

  unfoldable pub valid_conn : Conn → Bool
  valid_conn c =
      passes v.int positive c.max
      && passes v.int (required ∷ gte 0 ∷ []) c.min
      && passes v.int positive c.max_life_time
      && passes v.int positive c.max_idle_time
      && passes v.int positive c.connect_timeout

  unfoldable pub valid_database : Database → Bool
  unfolding valid_conn
  valid_database d = passes v.string (required ∷ []) d.dsn && valid_conn d.conn

  unfoldable pub valid_retry : Retry F → Bool
  valid_retry r =
      passes v.string (required ∷ oneof ("fixed" ∷ "linear" ∷ "exponential" ∷ []) ∷ []) r.backoff
      && passes v.int positive r.base
      && passes v.float (required ∷ gt 1 ∷ []) r.factor
      && passes v.int positive r.max
      && passes v.int (required ∷ gt 0 ∷ lte 10 ∷ []) r.max_attempts
      && passes v.float (gte 0 ∷ lte 1 ∷ []) r.jitter

  -- Validate
  unfoldable pub validate : Config F → Bool
  unfolding valid_app valid_database valid_retry valid_redis
  validate c =
      valid_app c.app && valid_database c.database && valid_retry c.retry && valid_redis c.redis
