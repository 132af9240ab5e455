-- ===== src/Repository/Slots/Available.antt =====
-- `GetAvailableByLaneAndDate` of app/internal/repository/slot.go against a description that knows
-- nothing of joins.
use mathlib.Core.List.{Memᴰ}
use mathlib.Core.List.Memᴰ
use strike_reserve.Base.{
  ℕ, ◌+◌, ◌≤◌, ◌<◌, ◌≡◌, refl, Bool, true, false, List, [], ◌∷◌, All, All-imp, sym, ap, ◌∙◌,
  Bool-cases, inl, inr, arith, ◌==◌, select,
}
use strike_reserve.Clock.{day_ns}
use strike_reserve.Models.{Booking, Slot, is_active}
use strike_reserve.Db.{Db}
use strike_reserve.Repository.Sql.Order.{Sorted, order_by-All, order_by-Sorted, Memᴰ-order_by}
use strike_reserve.Repository.Slots.{by_start, is_booked, is_available, available_slots}

-- A slot that may be booked: of the lane, on the day that starts at the instant, and with no
-- active booking.
pub record Open (lane_id day : ℕ) (bookings : List Booking) (s : Slot) : Type 0 where
  pub lane : s.lane_id ≡ lane_id
  pub from : day ≤ s.start_time
  pub before : s.start_time < day + day_ns
  pub unbooked : All (λ b. is_active b.status ≡ true → (b.slot_id == s.id) ≡ false) bookings

-- What the list of the lane's day has to be.
pub record Offer (lane_id day : ℕ) (db : Db) (slots : List Slot) : Type 0 where
  pub sound : All (λ s. Memᴰ s db.slots × Open lane_id day db.bookings s) slots
  pub complete : (s : Slot) → Memᴰ s db.slots → Open lane_id day db.bookings s → Memᴰ s slots
  pub sorted : Sorted by_start slots

unbooked-of :
    (s : Slot) (bookings : List Booking)
    → is_booked bookings s ≡ false
    → All (λ b. is_active b.status ≡ true → (b.slot_id == s.id) ≡ false) bookings
unbooked-of s [] h = tt
unbooked-of s (b ∷ bookings) h = ((λ a. ground arith), unbooked-of s bookings (ground arith))

pub of-unbooked :
    (s : Slot) (bookings : List Booking)
    → All (λ b. is_active b.status ≡ true → (b.slot_id == s.id) ≡ false) bookings
    → is_booked bookings s ≡ false
of-unbooked s [] h = refl
of-unbooked s (b ∷ bookings) h = ground (arith, of-unbooked s bookings h.1)

module _ (lane_id day : ℕ) (bookings : List Booking) where
  available-Open :
      (s : Slot) → is_available lane_id day bookings s ≡ true → Open lane_id day bookings s
  available-Open s h = record {
    lane = ground arith;
    from = ground arith;
    before = ground arith;
    unbooked = unbooked-of s bookings (ground arith);
  }

  Open-available :
      (s : Slot) → Open lane_id day bookings s → is_available lane_id day bookings s ≡ true
  Open-available s o = ground (arith, of-unbooked s bookings o.unbooked, o.lane, o.from, o.before)

select-All :
    {A : Type 0} (p : A → Bool) (xs : List A) → All (λ x. Memᴰ x xs × (p x ≡ true)) (select p xs)
select-All p [] = tt
select-All p (x ∷ xs) =
    let rest =
      All-imp (λ y. Memᴰ y xs × (p y ≡ true)) (λ y. Memᴰ y (x ∷ xs) × (p y ≡ true))
        (λ y m. (Memᴰ.tail m.0, m.1)) (select p xs) (select-All p xs) in
    elim (Bool-cases (p x)) [ inl k ↦ rw k ((Memᴰ.head refl, k), rest) | inr k ↦ rw k rest ]

Memᴰ-select :
    {A : Type 0} (p : A → Bool) (xs : List A) (x : A)
    → Memᴰ x xs
    → p x ≡ true
    → Memᴰ x (select p xs)
Memᴰ-select p [] x m h = m
Memᴰ-select p (y ∷ xs) x m h = elim (Memᴰ.cases_cons m) [
  | inl e ↦ rw (ap p (sym e) ∙ h) (Memᴰ.head e)
  | inr n ↦ elim (Bool-cases (p y)) [
    | inl k ↦ rw k (Memᴰ.tail (Memᴰ-select p xs x n h))
    | inr k ↦ rw k (Memᴰ-select p xs x n h)
  ]
]

-- The list for a lane and a day has exactly the slots of the lane that start on the day and have
-- no active booking, in order of their start.
pub available_slots-Offer :
    (lane_id day : ℕ) (db : Db) → Offer lane_id day db (available_slots lane_id day db)
unfolding available_slots
available_slots-Offer lane_id day db = record {
  sound = order_by-All by_start _ _ (
      All-imp (λ s. Memᴰ s db.slots × (is_available lane_id day db.bookings s ≡ true))
        (λ s. Memᴰ s db.slots × Open lane_id day db.bookings s)
        (λ s m. (m.0, available-Open lane_id day db.bookings s m.1)) _
        (select-All (is_available lane_id day db.bookings) db.slots));
  complete = λ s m o. Memᴰ-order_by by_start s _ (
      Memᴰ-select (is_available lane_id day db.bookings) db.slots s m
        (Open-available lane_id day db.bookings s o));
  sorted = order_by-Sorted by_start (λ s t h. ground arith) (λ r s t h k. ground arith) _;
}
