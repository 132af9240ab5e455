-- ===== src/Config/Loading.antt =====
-- Load and setDefaults of app/internal/config/config.go: the file is read, decoded and validated.
use strike_reserve.Base.{
  ℕ, String, Bool, true, false, Option, none, some, List, [], ◌∷◌, str_eq, if◌then◌else◌,
}
use strike_reserve.Config.{Config, Checks, validate}

-- What is set for a key: a number, a truth value or a text.
pub data Value : Type 0 where
  number : ℕ → Value
  truth : Bool → Value
  text : String → Value

-- setDefaults, key by key; 2.0 is the whole number it is.
abbrev pub defaults : List (String × Value)
defaults =
    ("app.port", number 8080)
    ∷ ("app.log_level", text "info")
    ∷ ("app.is_prod", truth false)
    ∷ ("app.shutdown_timeout", text "10s")
    ∷ ("database.conn.max", number 10)
    ∷ ("database.conn.connect_timeout", text "5s")
    ∷ ("retry.max_attempts", number 3)
    ∷ ("retry.factor", number 2)
    ∷ ("redis.size", number 1000)
    ∷ ("redis.duration", text "30s")
    ∷ ("app.services.password_cost", number 12)
    ∷ ("app.services.slot_duration", text "30m")
    ∷ ("app.services.auth.token_duration", text "24h")
    ∷ ("app.services.conference.port", number 9090)
    ∷ ("app.services.slot_generator.lookahead", number 30)
    ∷ ("app.services.slot_generator.interval", text "1h")
    ∷ []

pub data LoadError : Type 0 where
  read_failed unmarshal_failed not_valid : LoadError

pub data Loaded (F : Type 0) : Type 0 where
  loaded : Config F → Loaded F
  failed : LoadError → Loaded F

-- github.com/spf13/viper: the state of an instance, and what it reads and makes of the environment.
pub record Viper : Type 0 where
  pub set : List (String × Value)
  pub automatic_env : Bool
  pub replaced : List (String × String)
  pub config_file : String

pub record ViperLib (F : Type 0) : Type 1 where
  pub File : Type 0
  pub no_file : File
  pub read_in_config : Viper → Option File
  pub unmarshal : Viper → File → Option (Config F)

-- The instance that `Load` sets up, and with the file's path.
abbrev pub prepared : Viper
prepared = record {
  set = defaults;
  automatic_env = true;
  replaced = (".", "_") ∷ [];
  config_file = "";
}

abbrev pub with_file : String → Viper
with_file path = record prepared { config_file = path }

module _ {F : Type 0} (v : Checks F) where
  abbrev pub checked : Config F → Loaded F
  checked c = if validate v c then loaded c else failed not_valid

  abbrev pub unmarshalled : Option (Config F) → Loaded F
  unmarshalled none = failed unmarshal_failed
  unmarshalled (some c) = checked c

module _ {F : Type 0} (lib : ViperLib F) (v : Checks F) where
  abbrev pub read : Viper → Option lib.File → Loaded F
  read viper none = failed read_failed
  read viper (some file) = unmarshalled v (lib.unmarshal viper file)

  -- Load
  unfoldable pub load : String → Loaded F
  load path =
      if str_eq path ""
      then read prepared (some lib.no_file)
      else read (with_file path) (lib.read_in_config (with_file path))
