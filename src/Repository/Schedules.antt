-- ===== src/Repository/Schedules.antt =====
-- app/internal/repository/schedule.go
pub mod Saving
use strike_reserve.Base.{ℕ, Option, none, some, ◌==◌, first}
use strike_reserve.Models.{Schedule}
use strike_reserve.Models.Hms.{Text, value, scan, string}
use strike_reserve.Db.{
  Db, ScheduleRow, Effect, Violation, violates, not_null, bad_time, insert_schedule,
}
use strike_reserve.World.{Env}
use strike_reserve.Exec.{Exec, at_tick, ◌>>=◌, query}
use strike_reserve.Repository.Lanes.{stamp}
use strike_reserve.Repository.Sql.{one_row, returning}

-- A value that the statement cannot do without.
abbrev pub need : {A : Type 0} → Option A → Violation → (A → Effect (Unit {0})) → Effect (Unit {0})
need none v k = violates v
need (some a) v k = k a

module _ {C : Type 0} (env : Env C) where
  -- A time of day on its way to the column: NULL where it is empty, else read by the server.
  abbrev time_column : Text → (ℕ → Effect (Unit {0})) → Effect (Unit {0})
  time_column t k = need (value t) not_null (λ text. need (env.time_in text) bad_time k)

  -- INSERT INTO schedules …
  unfoldable pub insert_statement : Schedule → Db → Effect (Unit {0})
  insert_statement s db = time_column s.start_time (λ from. time_column s.end_time (λ to.
      insert_schedule
        (record {
          id = s.id;
          lane_id = s.lane_id;
          days_of_week = s.days_of_week;
          start_time = from;
          end_time = to;
          created_at = s.created_at;
        })
        db))

  unfoldable pub create : Schedule → Exec C Schedule
  unfolding insert_statement
  create s = do
    at ← stamp env s.created_at
    at_tick λ n.
        let row : Schedule = record s { id = env.uuid n; created_at = at } in
        query env (λ db. returning row (insert_statement row db))

  -- The columns of type TIME come back as text and go through `Scan`.
  abbrev pub scanned : Text → Text
  scanned t = elim (scan (string t)) [ none ↦ t | some h ↦ h ]

  unfoldable pub schedule_of : ScheduleRow → Schedule
  unfolding scan
  schedule_of r = record {
    id = r.id;
    lane_id = r.lane_id;
    days_of_week = r.days_of_week;
    start_time = scanned (env.time_out r.start_time);
    end_time = scanned (env.time_out r.end_time);
    created_at = r.created_at;
  }

  abbrev row_of : Option ScheduleRow → Option Schedule
  row_of none = none
  row_of (some r) = some (schedule_of r)

  unfoldable pub get_by_lane_id : ℕ → Exec C Schedule
  unfolding schedule_of
  get_by_lane_id lane_id =
      query env (λ db. one_row (row_of (first (λ r. r.lane_id == lane_id) db.schedules)) db)
