-- ===== src/Seed/Bounds.antt =====
-- What app/seed/main.go has made when it comes to its end: as many bookings as it prints, and not
-- more than it wants.
use strike_reserve.Base.{
  ℕ, zero, suc, ◌+◌, ◌*◌, ◌≤◌, ◌≡◌, refl, sym, ap, ◌∙◌, subst, false, List, [], ◌∷◌, Option, none,
  some, length, length-append, leb, arith, Bool-cases, inl, inr,
}
use strike_reserve.Clock.{day_ns}
use strike_reserve.Models.{User, UserRegister, Lane, LaneCreate, Schedule, Slot, Booking}
use strike_reserve.Db.{Db}
use strike_reserve.World.{Env, World}
use strike_reserve.Exec.{Exec, Result, ok, err, IsTransactional, pure, attempt, now}
use strike_reserve.Exec.Keeps.{
  Keeps, Keeps-pure, keeps_rules, Keeps-attempt, Keeps-bind, Keeps-on_error,
}
use strike_reserve.Exec.Runs.{>>=-ok}
use strike_reserve.Service.Users
use strike_reserve.Service.Lanes.{LaneConfig}
use strike_reserve.Service.Bookings
use strike_reserve.Service.Lanes
use strike_reserve.Service.Bookings.Create.{create_success, create_failure}
use strike_reserve.Seed.{
  SeedLib, Progress, drawn, counted, book, book_slots, book_found, book_lanes, book_days,
  create_users, create_lanes, seed_with, user_at, Wanted,
}
use strike_reserve.Seed.Untouched.{
  Rows, Rows-register, Rows-create_lane, Rows-get_available_slots, Rows-create_schedule,
}

ok_inj : {A : Type 0} {a b : A} → ok a ≡ ok b → a ≡ b
ok_inj h = cc

-- From one state of the script to a later one.
record Tally {C : Type 0} (n : Wanted) (p q : Progress) (w w' : World C) : Type 0 where
  rows : length w'.db.bookings + p.booking_count ≡ length w.db.bookings + q.booking_count
  bound : p.booking_count ≤ n.target_bookings → q.booking_count ≤ n.target_bookings

module _ {C : Type 0} (n : Wanted) where
  Tally-trans :
      (p q r : Progress) (u v w : World C) → Tally n p q u v → Tally n q r v w → Tally n p r u w
  Tally-trans p q r u v w a b = record {
    rows = omega (arith, a.rows, b.rows);
    bound = λ h. b.bound (a.bound h);
  }

  -- A draw changes neither bookings nor their number.
  Tally-drawn : (p q : Progress) (v w : World C) → Tally n (drawn p) q v w → Tally n p q v w
  Tally-drawn p q v w t = record { rows = t.rows; bound = t.bound }

  Tally-pure : (p q : Progress) (v w : World C) → pure p v ≡ (ok q, w) → Tally n p q v w
  Tally-pure p q v w h = record {
    rows =
        ap (λ (x : World C). length x.db.bookings + p.booking_count)
          (sym (ap (λ (x : Result Progress × World C). x.1) h))
        ∙ ap (λ (x : Progress). length v.db.bookings + x.booking_count)
            (ok_inj (ap (λ (x : Result Progress × World C). x.0) h));
    bound = λ k.
        subst (λ (x : Progress). x.booking_count ≤ n.target_bookings)
          (ok_inj (ap (λ (x : Result Progress × World C). x.0) h)) k;
  }

  Tally-Rows : (p : Progress) (v w : World C) → Rows v.db.bookings w.db → Tally n p p v w
  Tally-Rows p v w r = record {
    rows = ap (λ (b : List Booking). length b + p.booking_count) r.same;
    bound = λ h. h;
  }

module _ {C A : Type 0} where
  attempt-run :
      (m : Exec C A) (w v : World C) (r : Result A) → attempt m w ≡ (ok r, v) → m w ≡ (r, v)
  unfolding attempt
  attempt-run m w v r h =
      let a = ok_inj (ap (λ (x : Result (Result A) × World C). x.0) h) in
      let b = ap (λ (x : Result (Result A) × World C). x.1) h in λ i. (a i, b i)

  left :
      (m : Exec C A) (w v : World C) (r : Result A) (rows : List Booking)
      → Keeps (Rows rows) m
      → Rows rows w.db
      → m w ≡ (r, v)
      → Rows rows v.db
  left m w v r rows k h e = subst (λ (y : Result A × World C). Rows rows y.1.db) e (k.at w h)

module _ {C : Type 0} (env : Env C) (lib : SeedLib C) (n : Wanted)
    (t : IsTransactional C lib.tx) where
  -- One call of `Create`, whose error is dropped.
  Tally-counted :
      (user_id slot_id : ℕ) (p : Progress) (w v : World C) (r : Result Booking)
      → Bookings.create env lib.tx user_id slot_id w ≡ (r, v)
      → leb n.target_bookings p.booking_count ≡ false
      → Tally n p (counted r p) w v
  Tally-counted user_id slot_id p w v (ok b) h k =
      let (s, booked, c) = create_success env lib.tx t user_id slot_id w v b h in
      let one : length v.db.bookings ≡ length w.db.bookings + 1 =
        ap (λ (d : Db). length d.bookings) booked.added ∙ length-append w.db.bookings (b ∷ []) in
      record { rows = omega (arith, one); bound = λ h. ground arith }
  Tally-counted user_id slot_id p w v (err e) h k =
      let same = (create_failure env lib.tx t user_id slot_id w v e h).0 in
      record { rows = ap (λ (d : Db). length d.bookings + p.booking_count) same; bound = λ h. h }

  Tally-book :
      (slot_id : ℕ) (user : Option User) (p q : Progress) (w v : World C)
      → leb n.target_bookings p.booking_count ≡ false
      → book env lib slot_id user p w ≡ (ok q, v)
      → Tally n p q w v
  Tally-book slot_id none p q w v k h = absurd (cc h)
  Tally-book slot_id (some user) p q w v k h =
      let (r, u, e, f) = >>=-ok (attempt (Bookings.create env lib.tx user.id slot_id)) _ w v q h in
      Tally-trans n p (counted r p) q w u v
        (Tally-counted user.id slot_id p w u r (attempt-run _ w u r e) k)
        (Tally-pure n (counted r p) q u v f)

  Tally-book_slots :
      (users : List (Option User)) (slots : List Slot) (p q : Progress) (w v : World C)
      → book_slots env lib n users slots p w ≡ (ok q, v)
      → Tally n p q w v
  unfolding book_slots
  Tally-book_slots users [] p q w v h = Tally-pure n p q w v h
  Tally-book_slots users (s ∷ slots) p q w v h = elim (Bool-cases (lib.rng.above p.draws)) [
    | inl a ↦ Tally-drawn n p q w v (Tally-book_slots users slots (drawn p) q w v (rw a at h))
    | inr a ↦ elim (Bool-cases (leb n.target_bookings p.booking_count)) [
      | inl b ↦ Tally-drawn n p q w v (Tally-pure n (drawn p) q w v (rw (a, b) at h))
      | inr b ↦
          let user = user_at (lib.rng.intn (suc p.draws) (length users)) users in
          let twice = drawn (drawn p) in
          let (m, u, e, f) =
            >>=-ok (book env lib s.id user twice) (book_slots env lib n users slots) w v q
              (rw (a, b) at h) in
          Tally-drawn n p q w v (
            Tally-drawn n (drawn p) q w v (
              Tally-trans n twice m q w u v (Tally-book s.id user twice m w u b e)
                (Tally-book_slots users slots m q u v f)))
    ]
  ]

  Tally-book_found :
      (users : List (Option User)) (r : Result (List Slot)) (p q : Progress) (w v : World C)
      → book_found env lib n users r p w ≡ (ok q, v)
      → Tally n p q w v
  Tally-book_found users (ok slots) p q w v h = Tally-book_slots users slots p q w v h
  Tally-book_found users (err e) p q w v h = Tally-pure n p q w v h

  Tally-book_lanes :
      (users : List (Option User)) (date : ℕ) (lanes : List Lane) (p q : Progress) (w v : World C)
      → book_lanes env lib n users date lanes p w ≡ (ok q, v)
      → Tally n p q w v
  unfolding book_lanes
  Tally-book_lanes users date [] p q w v h = Tally-pure n p q w v h
  Tally-book_lanes users date (lane ∷ lanes) p q w v h =
      let (r, u, e, f) = >>=-ok (attempt (Lanes.get_available_slots env lane.id date)) _ w v q h in
      let (m, x, g, k) =
        >>=-ok (book_found env lib n users r p) (book_lanes env lib n users date lanes) u v q f in
      let read =
        left _ w u r w.db.bookings (Rows-get_available_slots env w.db.bookings lane.id date)
          (record { same = refl }) (attempt-run _ w u r e) in
      Tally-trans n p p q w u v (Tally-Rows n p w u read) (
        Tally-trans n p m q u x v (Tally-book_found users r p m u x g)
          (Tally-book_lanes users date lanes m q x v k))

  Tally-book_days :
      (users : List (Option User)) (lanes : List Lane) (days day : ℕ) (p q : Progress)
      (w v : World C)
      → book_days env lib n users lanes days day p w ≡ (ok q, v)
      → Tally n p q w v
  unfolding book_days
  Tally-book_days users lanes zero day p q w v h = Tally-pure n p q w v h
  Tally-book_days users lanes (suc days) day p q w v h =
      elim (Bool-cases (leb n.target_bookings p.booking_count)) [
        | inl b ↦ Tally-pure n p q w v (rw b at h)
        | inr b ↦
            let (at, u, e, f) = >>=-ok (now env) _ w v q (rw b at h) in
            let (m, x, g, k) =
              >>=-ok (book_lanes env lib n users (at + day * day_ns) lanes p)
                (book_days env lib n users lanes days (suc day)) u v q f in
            Tally-trans n p p q w u v
              (Tally-Rows n p w u (
                left (now env) w u (ok at) w.db.bookings (search keeps_rules)
                  (record { same = refl }) e))
              (Tally-trans n p m q u x v
                (Tally-book_lanes users (at + day * day_ns) lanes p m u x g)
                (Tally-book_days users lanes days (suc day) m q x v k))
      ]

-- A property of the tables that the calls of the first two steps keep.
module _ {C : Type 0} (env : Env C) (lib : SeedLib C) (P : Db → Type 0)
    (registers : (r : UserRegister) → Keeps P (Users.register env lib.bcrypt lib.cost r))
    (creates : (l : LaneCreate) → Keeps P (Lanes.create_lane env l))
    (plans : (c : LaneConfig) (s : Schedule) → Keeps P (Lanes.create_schedule env lib.tx c s)) where
  Keeps-create_users : (rounds i : ℕ) → Keeps P (create_users env lib rounds i)
  unfolding create_users
  Keeps-create_users zero i = Keeps-pure []
  Keeps-create_users (suc rounds) i =
      Keeps-bind _ _ (Keeps-attempt _ (registers _))
        λ user. Keeps-bind _ _ (Keeps-create_users rounds (suc i)) λ users. Keeps-pure _

  Keeps-create_lanes : (rounds i : ℕ) → Keeps P (create_lanes env lib rounds i)
  unfolding create_lanes
  Keeps-create_lanes zero i = Keeps-pure []
  Keeps-create_lanes (suc rounds) i = Keeps-bind _ _ (Keeps-on_error _ _ (creates _)) λ lane.
      Keeps-bind _ _ (Keeps-attempt _ (plans _ _))
        λ saved. Keeps-bind _ _ (Keeps-create_lanes rounds (suc i)) λ lanes. Keeps-pure _

module _ {C : Type 0} (env : Env C) (lib : SeedLib C) (n : Wanted)
    (t : IsTransactional C lib.tx) where
  begin : Progress
  begin = record { booking_count = 0; draws = n.room_to_create }

  Rows-users : (rows : List Booking) → Keeps (Rows rows) (create_users env lib n.user_count 0)
  Rows-users rows =
      Keeps-create_users env lib (Rows rows) (Rows-register env rows lib.bcrypt lib.cost)
        (Rows-create_lane env rows) (Rows-create_schedule env rows lib.tx t) n.user_count 0

  Rows-lanes : (rows : List Booking) → Keeps (Rows rows) (create_lanes env lib n.room_to_create 0)
  Rows-lanes rows =
      Keeps-create_lanes env lib (Rows rows) (Rows-register env rows lib.bcrypt lib.cost)
        (Rows-create_lane env rows) (Rows-create_schedule env rows lib.tx t) n.room_to_create 0

  Tally-seed :
      (q : Progress) (w v : World C) → seed_with env lib n w ≡ (ok q, v) → Tally n begin q w v
  unfolding seed_with begin
  Tally-seed q w v h =
      let (users, u, e, f) = >>=-ok (create_users env lib n.user_count 0) _ w v q h in
      let (lanes, x, g, k) =
        >>=-ok (create_lanes env lib n.room_to_create 0)
          (λ lanes. book_days env lib n users lanes n.days 0 begin) u v q f in
      let first =
        left _ w u (ok users) w.db.bookings (Rows-users w.db.bookings) (record { same = refl }) e in
      let second =
        left _ u x (ok lanes) u.db.bookings (Rows-lanes u.db.bookings) (record { same = refl }) g in
      Tally-trans n begin begin q w u v (Tally-Rows n begin w u first) (
        Tally-trans n begin begin q u x v (Tally-Rows n begin u x second)
          (Tally-book_days env lib n t users lanes n.days 0 begin q x v k))

  -- Where the script comes to its end, whatever numbers it is given in place of its own, there are as
  -- many new bookings as it counts, and it counts at most as many as it wants.
  pub seed_success :
      (q : Progress) (w v : World C)
      → seed_with env lib n w ≡ (ok q, v)
      → (length v.db.bookings ≡ length w.db.bookings + q.booking_count)
        × (q.booking_count ≤ n.target_bookings)
  unfolding begin
  seed_success q w v h =
      let tally = Tally-seed q w v h in (omega (arith, tally.rows), tally.bound (ground arith))
