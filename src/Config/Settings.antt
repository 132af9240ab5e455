-- ===== src/Config/Settings.antt =====
-- What app/internal/app/di.go gives each component out of the configuration.
use strike_reserve.Base.{ℕ}
use strike_reserve.Base.Int.{ℤ, pos, negsuc}
use strike_reserve.Config.{Config}
use strike_reserve.Service.Auth.{AuthConfig}
use strike_reserve.Service.Lanes.{LaneConfig}
use strike_reserve.Service.Generator.{GeneratorConfig}
use strike_reserve.Handler.Bookings.{PageConfig}

-- A number that the tags of the configuration keep from being negative.
abbrev pub magnitude : ℤ → ℕ
magnitude (pos n) = n
magnitude (negsuc n) = 0

module _ {F : Type 0} (cfg : Config F) where
  unfoldable pub auth_config : AuthConfig
  auth_config = record {
    secret_key = cfg.app.services.auth.secret_key;
    token_duration = magnitude cfg.app.services.auth.token_duration;
  }

  unfoldable pub lane_config : LaneConfig
  lane_config = record {
    slot_duration = magnitude cfg.app.services.slot_duration;
    slot_generation_days = 14;
  }

  unfoldable pub generator_config : GeneratorConfig
  generator_config = record {
    slot_duration = magnitude cfg.app.services.slot_duration;
    lookahead = magnitude cfg.app.services.slot_generator.look_ahead;
  }

  unfoldable pub page_config : PageConfig
  page_config = record {
    default_page_size = cfg.app.page.size.default;
    max_page_size = cfg.app.page.size.max;
    min_page_size = cfg.app.page.size.min;
    default_page = cfg.app.page.default;
    min_page = cfg.app.page.min;
  }
