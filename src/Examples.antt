-- ===== src/Examples.antt =====
-- A small alley with one user, one lane and one slot, on which the theorems about
-- app/internal are applied.
mod Bookings
mod Generation
mod Server
mod Availability
mod Schedules
mod Access
mod Pages
mod Caching
mod Accounts
mod Startup
mod Racing
mod Sharing
mod Timetable
mod Wire
mod Seed
use strike_reserve.Base.{
  ℕ, ◌+◌, ◌*◌, ◌/◌, ◌%◌, ◌==◌, ◌&&◌, String, Bool, true, false, not, List, [], ◌∷◌, Option, none,
  some, select, if◌then◌else◌,
}
use strike_reserve.Models.{User, Lane, Slot, Booking, active, cancelled, Schedule}
use strike_reserve.Models.Hms.{Text, parse_hms, from_hm_to_hms}
use strike_reserve.Models.Hms.RoundTrip.{display}
use strike_reserve.Db.{Db, Violation}
use strike_reserve.World.{Env, World, SlotCacheKey}

-- A cache: the days that are held, the latest first.
abbrev pub Held : Type 0
Held = List (SlotCacheKey × List Slot)

abbrev pub same_key : SlotCacheKey → SlotCacheKey → Bool
same_key k l = k.lane_id == l.lane_id && k.date == l.date

abbrev pub held : SlotCacheKey → Held → Option (List Slot)
held key [] = none
held key ((k, slots) ∷ days) = if same_key k key then some slots else held key days

abbrev pub forget : SlotCacheKey → Held → Held
forget key days = select (λ ((k, slots) : SlotCacheKey × List Slot). not (same_key k key)) days

abbrev pub a_day : ℕ
a_day = 86400000000000

abbrev pub an_hour : ℕ
an_hour = 3600000000000

-- A column of type TIME holds minutes.
abbrev pub read_time : Text → Option ℕ
read_time t = elim (parse_hms t) [ none ↦ none | some r ↦ some (r.hour * 60 + r.minute) ]

-- A driver that never fails; identifiers count up from 1000.
abbrev pub env : Env Held
env = record {
  uuid = λ n. 1000 + n;
  now = λ n. 5 * a_day + n;
  fault = λ n. none;
  detail = λ v. "";
  message = λ v. "";
  name_le = λ s t. true;
  time_in = read_time;
  time_out = λ n. from_hm_to_hms (display (n / 60) (n % 60));
  wall = λ t. t;
  cache_get = λ key days. (held key days, days);
  cache_set = λ key slots days. (key, slots) ∷ days;
  cache_delete = forget;
}

abbrev pub alice : User
alice = record {
  id = 1;
  email = "alice@test.com";
  password_hash = some "hash";
  role = "user";
  created_at = 0;
}

abbrev pub lane : Lane
lane = record {
  id = 3;
  name = "First";
  lane_type = "vip";
  description = none;
  is_active = none;
  created_at = 0;
}

abbrev pub slot : Slot
slot = record {
  id = 7;
  lane_id = 3;
  start_time = 6 * a_day + 10 * an_hour;
  end_time = 6 * a_day + 11 * an_hour;
}

abbrev pub booking : Booking
booking = record { id = 9; user_id = 1; slot_id = 7; status = active; created_at = 0 }

abbrev pub db : List Booking → Db
db bookings = record {
  users = alice ∷ [];
  lanes = lane ∷ [];
  schedules = [];
  slots = slot ∷ [];
  bookings = bookings;
}

abbrev pub world : List Booking → World Held
world bookings = record { db = db bookings; cache = []; ticks = 0 }

-- Mondays and Sundays, ten to twelve.
abbrev pub schedule : Schedule
schedule = record {
  id = 0;
  lane_id = 3;
  days_of_week = 1 ∷ 7 ∷ [];
  start_time = b'1' ∷ b'0' ∷ b':' ∷ b'0' ∷ b'0' ∷ b':' ∷ b'0' ∷ b'0' ∷ [];
  end_time = b'1' ∷ b'2' ∷ b':' ∷ b'0' ∷ b'0' ∷ b':' ∷ b'0' ∷ b'0' ∷ [];
  created_at = 0;
}
