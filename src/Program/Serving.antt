-- ===== src/Program/Serving.antt =====
-- The server that app/internal/app/di.go puts together from a configuration and from the libraries.
use strike_reserve.Base.{Bool, ◌≡◌, refl, String, Option, List, [], ℕ, All, Apart, subst, sym}
use strike_reserve.Models.{Schedule}
use strike_reserve.Db.{Db}
use strike_reserve.Db.Intact.{Intact}
use strike_reserve.World.{Env, World}
use strike_reserve.Exec.{TxManager, IsTransactional}
use strike_reserve.Config.{Config, Checks}
use strike_reserve.Config.Loading.{ViperLib, load, loaded}
use strike_reserve.Config.Valid.{IsDocumented, load-Sound}
use strike_reserve.Config.Settings.{
  auth_config, lane_config, generator_config, page_config, magnitude,
}
use strike_reserve.Container.Startup.{magnitude_positive}
use strike_reserve.Service.Auth.{Jwt}
use strike_reserve.Service.Users.{Bcrypt, password_cost}
use strike_reserve.Service.Timetable.{Timetable, Placed}
use strike_reserve.Service.Timetable.Filling.{Legible, ReadsBack}
use strike_reserve.Handler.Auth.{Validator}
use strike_reserve.Server.{Server, Event, history}
use strike_reserve.Server.Keeping.{Admits}
use strike_reserve.Server.History.{history-Intact}
use strike_reserve.Server.Timetable.{overlaps, Placed-Apart, history-Timetable}

-- What the program is built on.
pub record Libraries (C : Type 0) : Type 1 where
  pub env : Env C
  pub tx : TxManager C
  pub jwt : Jwt
  pub bcrypt : Bcrypt
  pub validator : Validator
  pub schedule_ok : Schedule → Bool
  pub id_text : ℕ → String
  pub parse_id : String → Option ℕ

unfoldable pub server_of : {C F : Type 0} → Libraries C → Config F → Server C
unfolding auth_config lane_config generator_config page_config password_cost
server_of l cfg = record {
  env = l.env;
  tx = l.tx;
  jwt = l.jwt;
  auth = auth_config cfg;
  bcrypt = l.bcrypt;
  cost = password_cost l.bcrypt (magnitude cfg.app.services.password_cost);
  pages = page_config cfg;
  lanes = lane_config cfg;
  generator = generator_config cfg;
  validator = l.validator;
  schedule_ok = l.schedule_ok;
  id_text = l.id_text;
  parse_id = l.parse_id;
}

no_slots-Timetable :
    {C : Type 0} (env : Env C) (d : ℕ) (db : Db) → db.slots ≡ [] → Timetable env d db
no_slots-Timetable env d db e = record {
  placed = subst (λ xs. All (Placed env d db.schedules) xs) (sym e) tt;
}

module _ {C F : Type 0} (lib : ViperLib F) (v : Checks F) (l : Libraries C) where
  -- With a configuration that was loaded: whatever requests, tokens, generator rounds and failures of
  -- driver and server come in whatever order, from intact tables without slots, no two slots of a lane
  -- overlap; if the hours that schedules are asked for with can be read by the program, the server
  -- gives back the hour and the minute of such hours, transactions are what they are taken for, and the
  -- validator does with whole numbers what it documents.
  pub history-Apart :
      (path : String) (cfg : Config F) (events : List Event) (w : World C)
      → IsDocumented v
      → IsTransactional C l.tx
      → ReadsBack l.env
      → load lib v path ≡ loaded cfg
      → All (Admits Legible) events
      → Intact w.db
      → w.db.slots ≡ []
      → Apart overlaps (history (server_of l cfg) events w).db.slots
  unfolding server_of lane_config generator_config
  history-Apart path cfg events w doc t back k a i e =
      let s = server_of l cfg in
      let d =
        magnitude_positive cfg.app.services.slot_duration
          (load-Sound lib v path cfg doc k).slot_duration in
      let times =
        history-Timetable s t back events w d refl a
          (no_slots-Timetable l.env s.lanes.slot_duration w.db e) in
      Placed-Apart l.env s.lanes.slot_duration (history s events w).db.schedules
        (history s events w).db.slots times.placed (history-Intact s t events w i).slots
