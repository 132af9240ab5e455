-- ===== src/Repository/Integrity.antt =====
-- The operations of app/internal/repository keep the integrity of the tables.
use strike_reserve.Base.{
  ℕ, ◌≡◌, true, List, [], ◌∷◌, map, arith, All-imp, All-map, Apart-map, any, any-map-true, ◌==◌,
  String,
}
use strike_reserve.Models.{Booking, Slot, User, UserRole}
use strike_reserve.Db.{
  Db, bookings_clash, users_clash, has_user, has_slot, insert_slot, insert_user,
}
use strike_reserve.Db.Intact.{
  Intact, insert_user-Intact, insert_lane-Intact, insert_schedule-Intact, insert_slot-Intact,
  insert_booking-Intact,
}
use strike_reserve.Exec.Keeps.{After}
use strike_reserve.Repository.Bookings.{set_cancelled}
use strike_reserve.Repository.Slots.{insert_slots}
use strike_reserve.Repository.Keeping.{After-map_effect, After-and_then, Closed, Growing}
use strike_reserve.Repository.Users.{set_role, upsert_user}

pub set_cancelled-clash :
    (id : ℕ) (b c : Booking)
    → bookings_clash (set_cancelled id b) (set_cancelled id c) ≡ true
    → bookings_clash b c ≡ true
unfolding set_cancelled
set_cancelled-clash id b c h = ground arith

cancelled-Intact :
    (id : ℕ) (db : Db)
    → Intact db
    → Intact (record db { bookings = map (set_cancelled id) db.bookings })
unfolding set_cancelled
cancelled-Intact id db i = record {
  users = i.users;
  lanes = i.lanes;
  schedules = i.schedules;
  slots = i.slots;
  bookings =
      Apart-map bookings_clash (set_cancelled id) (set_cancelled-clash id) db.bookings i.bookings;
  schedule_lane = i.schedule_lane;
  schedule_span = i.schedule_span;
  slot_lane = i.slot_lane;
  slot_span = i.slot_span;
  booking_user =
      All-map (λ b. has_user b.user_id db ≡ true) (λ b. has_user b.user_id db ≡ true)
        (set_cancelled id) (λ b h. ground arith) db.bookings i.booking_user;
  booking_slot =
      All-map (λ b. has_slot b.slot_id db.slots ≡ true) (λ b. has_slot b.slot_id db.slots ≡ true)
        (set_cancelled id) (λ b h. ground arith) db.bookings i.booking_slot;
}

set_role-clash :
    (email : String) (role : UserRole) (u v : User)
    → users_clash (set_role email role u) (set_role email role v) ≡ true
    → users_clash u v ≡ true
unfolding set_role
set_role-clash email role u v h = ground arith

set_role-id :
    (email : String) (role : UserRole) (id : ℕ) (u : User)
    → (u.id == id) ≡ true
    → ((set_role email role u).id == id) ≡ true
unfolding set_role
set_role-id email role id u h = ground arith

upsert_user-Intact : (u : User) (db : Db) → Intact db → After Intact (upsert_user u db)
unfolding upsert_user
upsert_user-Intact u db i = ground (
  arith,
  After-map_effect Intact (λ (x : Unit {0}). u.created_at) (insert_user u db)
      (insert_user-Intact u db i),
  Apart-map users_clash (set_role u.email u.role) (set_role-clash u.email u.role) db.users i.users,
  All-imp (λ (b : Booking). has_user b.user_id db ≡ true)
      (λ (b : Booking).
        any (λ (v : User). v.id == b.user_id) (map (set_role u.email u.role) db.users) ≡ true)
      (λ b.
        any-map-true (λ v. v.id == b.user_id) (λ v. v.id == b.user_id) (set_role u.email u.role)
          (set_role-id u.email u.role b.user_id) db.users)
      db.bookings i.booking_user,
)

insert_slots-Intact :
    (slots : List Slot) (db : Db) → Intact db → After Intact (insert_slots slots db)
unfolding insert_slots
insert_slots-Intact [] db i = i
insert_slots-Intact (s ∷ slots) db i =
    After-and_then Intact (insert_slot s db) (insert_slots slots) (insert_slots-Intact slots)
      (insert_slot-Intact s db i)

pub Intact-Closed : Closed Intact
Intact-Closed = record {
  joining = record { user = insert_user-Intact; lane = insert_lane-Intact };
  booking = insert_booking-Intact;
  upsert = upsert_user-Intact;
  cancelled = cancelled-Intact;
}

pub Intact-Growing : Growing Intact
Intact-Growing = record { schedule = insert_schedule-Intact; slots = insert_slots-Intact }
