-- ===== src/Seed.antt =====
-- app/seed/main.go: filling a development database with users, lanes, schedules and bookings. The
-- generator of random numbers is asked by the number of the draw.
pub mod Untouched
pub mod Bounds
pub mod Start
use Prim.Native.String.{◌++◌}
use strike_reserve.Base.{
  ℕ, zero, suc, ◌+◌, ◌*◌, ◌==◌, String, Bool, List, [], ◌∷◌, Option, none, some, length, leb,
  if◌then◌else◌,
}
use strike_reserve.Clock.{day_ns}
use strike_reserve.Errors.{Error, panic}
use strike_reserve.Models.{User, UserRegister, Lane, LaneType, Slot, Schedule, Booking, role_user}
use strike_reserve.Models.Hms.{Text}
use strike_reserve.World.{Env}
use strike_reserve.Exec.{
  Exec, Result, ok, err, TxManager, pure, raise, on_error, attempt, ◌>>=◌, ◌>>◌, now,
}
use strike_reserve.Service.Bookings
use strike_reserve.Service.Lanes
use strike_reserve.Service.Lanes.{LaneConfig}
use strike_reserve.Service.Users
use strike_reserve.Service.Users.{Bcrypt}

-- math/rand: rng.Intn(n) and rng.Float32() > 0.7, each at the number of the draws before it.
pub record Rng : Type 0 where
  pub intn : ℕ → ℕ → ℕ
  pub above : ℕ → Bool

-- What the script is built on; `decimal` is %d. The number of days of the slots is 45.
pub record SeedLib (C : Type 0) : Type 1 where
  pub tx : TxManager C
  pub bcrypt : Bcrypt
  pub cost : ℕ
  pub slot_duration : ℕ
  pub rng : Rng
  pub decimal : ℕ → String

abbrev pub lanes_config : ℕ → LaneConfig
lanes_config slot_duration = record { slot_duration = slot_duration; slot_generation_days = 45 }

-- The numbers that the script writes out.
pub record Wanted : Type 0 where
  pub user_count : ℕ
  pub room_to_create : ℕ
  pub target_bookings : ℕ
  pub days : ℕ

abbrev pub wanted : Wanted
wanted = record { user_count = 500; room_to_create = 100; target_bookings = 100000; days = 45 }

unfoldable pub lane_type_of : ℕ → LaneType
lane_type_of n =
    if n == 0
    then "standard"
    else if n == 1
    then "kids"
    else if n == 2
    then "pro"
    else if n == 3
    then "vip"
    else "standard"

abbrev pub seed_schedule : ℕ → Schedule
seed_schedule lane_id = record {
  id = 0;
  lane_id = lane_id;
  days_of_week = 1 ∷ 2 ∷ 3 ∷ 4 ∷ 5 ∷ 6 ∷ 7 ∷ [];
  start_time = b'0' ∷ b'8' ∷ b':' ∷ b'0' ∷ b'0' ∷ b':' ∷ b'0' ∷ b'0' ∷ [];
  end_time = b'2' ∷ b'0' ∷ b':' ∷ b'0' ∷ b'0' ∷ b':' ∷ b'0' ∷ b'0' ∷ [];
  created_at = 0;
}

-- u, _ := …: the nil pointer where there is an error.
abbrev pub or_nil : {A : Type 0} → Result A → Option A
or_nil (ok a) = some a
or_nil (err e) = none

-- users[n]
abbrev pub user_at : ℕ → List (Option User) → Option User
user_at n [] = none
user_at zero (u ∷ users) = u
user_at (suc n) (u ∷ users) = user_at n users

-- The bookings that were made, and the draws.
pub record Progress : Type 0 where
  pub booking_count : ℕ
  pub draws : ℕ

abbrev pub drawn : Progress → Progress
drawn p = record p { draws = suc p.draws }

abbrev pub counted : Result Booking → Progress → Progress
counted (ok b) p = record p { booking_count = suc p.booking_count }
counted (err e) p = p

module _ {C : Type 0} (env : Env C) (lib : SeedLib C) where
  -- Step 1, with the rounds left.
  unfoldable pub create_users : ℕ → ℕ → Exec C (List (Option User))
  create_users zero i = pure []
  create_users (suc rounds) i = do
    user ← attempt (
        Users.register env lib.bcrypt lib.cost (record {
          email = "user" ++ (lib.decimal i ++ "@test.com");
          password = "password123";
          role = role_user;
        }))
    users ← create_users rounds (suc i)
    pure (or_nil user ∷ users)

  -- Step 2, with the rounds left and those done: a lane that was not created is a nil pointer,
  -- whose ID is read.
  unfoldable pub create_lanes : ℕ → ℕ → Exec C (List Lane)
  unfolding lane_type_of
  create_lanes zero i = pure []
  create_lanes (suc rounds) i = do
    on_error (λ e. panic)
          (Lanes.create_lane env (record {
            name = "Bowling lane " ++ lib.decimal (suc i);
            description = some ("Bowling lane description " ++ lib.decimal (suc i));
            lane_type = lane_type_of (lib.rng.intn i 4);
          }))
        >>= λ lane. do
          saved ← attempt (
              Lanes.create_schedule env lib.tx (lanes_config lib.slot_duration)
                (seed_schedule lane.id))
          lanes ← create_lanes rounds (suc i)
          pure (lane ∷ lanes)

  -- A booking for the user that was drawn; the nil pointer of one that was not registered is read.
  abbrev pub book : ℕ → Option User → Progress → Exec C Progress
  book slot_id none p = raise panic
  book slot_id (some user) p = do
    made ← attempt (Bookings.create env lib.tx user.id slot_id)
    pure (counted made p)

module _ {C : Type 0} (env : Env C) (lib : SeedLib C) (n : Wanted) where
  -- Step 3: the slots of a lane and a day.
  unfoldable pub book_slots : List (Option User) → List Slot → Progress → Exec C Progress
  book_slots users [] p = pure p
  book_slots users (slot ∷ slots) p =
      let passed_over = book_slots users slots (drawn p) in
      if lib.rng.above p.draws
      then passed_over
      else if leb n.target_bookings p.booking_count
      then pure (drawn p)
      else book env lib slot.id (user_at (lib.rng.intn (suc p.draws) (length users)) users)
          (drawn (drawn p))
        >>= λ q. book_slots users slots q

  -- `continue` where there is an error or no slot.
  abbrev pub book_found : List (Option User) → Result (List Slot) → Progress → Exec C Progress
  book_found users (err e) p = pure p
  book_found users (ok slots) p = book_slots users slots p

  unfoldable pub book_lanes : List (Option User) → ℕ → List Lane → Progress → Exec C Progress
  unfolding book_slots
  book_lanes users date [] p = pure p
  book_lanes users date (lane ∷ lanes) p = do
    slots ← attempt (Lanes.get_available_slots env lane.id date)
    q ← book_found users slots p
    book_lanes users date lanes q

  -- The days left, and the number of the day.
  unfoldable pub book_days : List (Option User) → List Lane → ℕ → ℕ → Progress → Exec C Progress
  unfolding book_lanes
  book_days users lanes zero day p = pure p
  book_days users lanes (suc days) day p =
      if leb n.target_bookings p.booking_count
      then pure p
      else now env >>= λ at. do
        q ← book_lanes users (at + day * day_ns) lanes p
        book_days users lanes days (suc day) q

  -- main, from its first step on; the draws of the second step come before those of the third.
  unfoldable pub seed_with : Exec C Progress
  unfolding create_users create_lanes book_days
  seed_with = do
    users ← create_users env lib n.user_count 0
    lanes ← create_lanes env lib n.room_to_create 0
    book_days users lanes n.days 0 (record { booking_count = 0; draws = n.room_to_create })

module _ {C : Type 0} (env : Env C) (lib : SeedLib C) where
  unfoldable pub seed : Exec C Progress
  unfolding seed_with
  seed = seed_with env lib wanted
