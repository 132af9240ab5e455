-- ===== src/Examples/Timetable.antt =====
-- A schedule is made, and the generator runs twice.
use strike_reserve.Base.{
  ℕ, ◌+◌, ◌*◌, ◌/◌, ◌%◌, ◌<◌, ◌≡◌, refl, sym, ap, subst, ◌∙◌, List, [], ◌∷◌, some, some_inj, Apart,
  arith,
}
use strike_reserve.Models.Hms.{Text, TimeOfDay, parse_hms, time_or_zero, from_hm_to_hms, scan}
use strike_reserve.Models.Hms.RoundTrip.{display, hm_round_trip}
use strike_reserve.Db.Intact.{Intact}
use strike_reserve.World.{World}
use strike_reserve.Exec.Tx.{atomic-IsTransactional}
use strike_reserve.Repository.Schedules.{scanned}
use strike_reserve.Service.Generation.Days.{time_of_day}
use strike_reserve.Service.Timetable.Filling.{Legible, ReadsBack}
use strike_reserve.Handler.Lanes.{ScheduleBody, schedule_of}
use strike_reserve.Server.{Event, request, generation, create_schedule, history}
use strike_reserve.Server.Timetable.{overlaps}
use strike_reserve.Program.Serving.{Libraries, server_of, history-Apart}
use strike_reserve.Examples.{Held, env, db, world, read_time}
use strike_reserve.Examples.Server.{server, token}
use strike_reserve.Examples.Startup.{config, viper, checks, checks-IsDocumented, config_loaded}

abbrev libraries : Libraries Held
libraries = record {
  env = env;
  tx = server.tx;
  jwt = server.jwt;
  bcrypt = server.bcrypt;
  validator = server.validator;
  schedule_ok = server.schedule_ok;
  id_text = server.id_text;
  parse_id = server.parse_id;
}

-- A time is minutes here.
minutes :
    (t : Text) (n : ℕ) (r : TimeOfDay)
    → parse_hms t ≡ some r
    → read_time t ≡ some n
    → n ≡ r.hour * 60 + r.minute
minutes t n r p k = sym (some_inj (rw (p, read_time) at k))

of_day : (t : Text) (r : TimeOfDay) → parse_hms t ≡ some r → (r.hour < 24) × (r.minute < 60)
unfolding time_or_zero
of_day t r p =
    let same : time_or_zero t ≡ r = rw (p, time_or_zero) refl in
    subst (λ (x : TimeOfDay). (x.hour < 24) × (x.minute < 60)) same (time_of_day t)

given_back :
    (hour minute : ℕ)
    → hour < 24
    → minute < 60
    → time_or_zero (scanned env (from_hm_to_hms (display hour minute)))
      ≡ record { hour = hour; minute = minute; second = 0 }
unfolding time_or_zero scan from_hm_to_hms display
given_back hour minute h m = rw ((hm_round_trip hour minute h m).1, time_or_zero) refl

env-ReadsBack : ReadsBack env
env-ReadsBack = record {
  at = λ t n r p k.
      let n_eq = minutes t n r p k in
      let (h, m) = of_day t r p in
      let hour : n / 60 ≡ r.hour = omega (arith, n_eq, m) in
      let minute : n % 60 ≡ r.minute = omega (arith, n_eq, m) in
      let back = given_back (n / 60) (n % 60) (rw hour h) (rw minute m) in
      (ap (λ (x : TimeOfDay). x.hour) back ∙ hour, ap (λ (x : TimeOfDay). x.minute) back ∙ minute);
}

abbrev body : ScheduleBody
body = record {
  days_of_week = 1 ∷ 2 ∷ 3 ∷ 7 ∷ [];
  start_time = b'1' ∷ b'0' ∷ b':' ∷ b'0' ∷ b'0' ∷ [];
  end_time = b'1' ∷ b'2' ∷ b':' ∷ b'0' ∷ b'0' ∷ [];
}

abbrev events : List Event
events = generation ∷ request token (create_schedule 3 body) ∷ generation ∷ generation ∷ []

abbrev start : World Held
start = record (world []) { db = record (db []) { slots = [] } }

body-Legible : Legible (schedule_of 3 body)
unfolding parse_hms schedule_of
body-Legible = record {
  opens = (record { hour = 10; minute = 0; second = 0 }, refl);
  closes = (record { hour = 12; minute = 0; second = 0 }, refl);
}

start-Intact : Intact start.db
start-Intact = record {
  users = (refl, tt);
  lanes = (refl, tt);
  schedules = tt;
  slots = tt;
  bookings = tt;
  schedule_lane = tt;
  schedule_span = tt;
  slot_lane = tt;
  slot_span = tt;
  booking_user = tt;
  booking_slot = tt;
}

history-Apart_example : Apart overlaps (history (server_of libraries config) events start).db.slots
history-Apart_example =
    history-Apart viper checks libraries "config.yaml" config events start checks-IsDocumented
      atomic-IsTransactional env-ReadsBack config_loaded (tt, (body-Legible, (tt, (tt, tt))))
      start-Intact refl
