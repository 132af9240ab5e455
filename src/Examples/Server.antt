-- ===== src/Examples/Server.antt =====
-- The server with small stand-ins for its libraries.
use strike_reserve.Base.{true, List, [], ◌∷◌, none, some}
use strike_reserve.Models.{Claims}
use strike_reserve.Models.Hms.{Text}
use strike_reserve.Db.{empty_db}
use strike_reserve.Db.Intact.{Intact, Intact-empty}
use strike_reserve.World.{World}
use strike_reserve.Exec.Tx.{atomic, atomic-IsTransactional}
use strike_reserve.Service.Auth.{parsed}
use strike_reserve.Server.{
  Server, Event, history, request, generation, dummy_login, create_lane, create_booking, list_slots,
}
use strike_reserve.Server.History.{history-Intact}
use strike_reserve.Examples.{Held, env, a_day, an_hour}

-- Every token is that of an administrator.
abbrev pub claims : Claims
claims = record {
  user_id = "1000";
  role = "admin";
  expires_at = 0;
  issued_at = 0;
  subject = "1000";
}

abbrev pub server : Server Held
server = record {
  env = env;
  tx = atomic;
  jwt = record { sign = λ secret claims. some []; parse = λ key token. parsed true claims };
  auth = record { secret_key = []; token_duration = a_day };
  bcrypt = record {
    default_cost = 10;
    generate = λ n cost password. some "hash";
    matches = λ hash password. true;
  };
  cost = 10;
  pages = record {
    default_page_size = 10;
    max_page_size = 100;
    min_page_size = 1;
    default_page = 1;
    min_page = 1;
  };
  lanes = record { slot_duration = an_hour; slot_generation_days = 8 };
  generator = record { slot_duration = an_hour; lookahead = 8 };
  validator = record { login_ok = λ l. true; register_ok = λ r. true };
  schedule_ok = λ s. true;
  id_text = λ n. "1000";
  parse_id = λ text. some 1000;
}

abbrev pub token : Text
token = b'B' ∷ b'e' ∷ b'a' ∷ b'r' ∷ b'e' ∷ b'r' ∷ b' ' ∷ b't' ∷ []

abbrev events : List Event
events =
    request [] (dummy_login "user")
    ∷ request token (create_lane (record { name = "First"; description = none; lane_type = "vip" }))
    ∷ request token (list_slots 3 a_day)
    ∷ generation
    ∷ request token (create_booking 7)
    ∷ []

abbrev pub start : World Held
start = record { db = empty_db; cache = []; ticks = 0 }

history-Intact_example : Intact (history server events start).db
history-Intact_example = history-Intact server atomic-IsTransactional events start Intact-empty
