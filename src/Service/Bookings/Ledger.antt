-- ===== src/Service/Bookings/Ledger.antt =====
-- What the booking service of app/internal/service/booking.go is for: a ledger that says which user
-- has which slot. Rows, statuses, identifiers and history are left out of it.
pub mod Moves
use strike_reserve.Base.{
  ℕ, ◌≡◌, refl, sym, ap, ◌∙◌, Bool, true, false, ◌&&◌, List, [], ◌∷◌, ◌++◌, map, Option, none, some,
  any, first, first-not_any, if◌then◌else◌, ◌==◌, Apart, arith,
}
use strike_reserve.Models.{Booking, is_active}
use strike_reserve.Db.{bookings_clash}
use strike_reserve.Repository.Bookings.{set_cancelled}
use strike_reserve.Service.Bookings.Create.{is_taken}

abbrev pub assign : ℕ → Option ℕ → (ℕ → Option ℕ) → ℕ → Option ℕ
assign slot_id user book x = if x == slot_id then user else book x

-- The user whose active booking has the slot.
unfoldable pub holder : List Booking → ℕ → Option ℕ
holder [] x = none
holder (b ∷ bookings) x =
    let later = holder bookings x in
    if is_active b.status && b.slot_id == x then some b.user_id else later

pub holder_none :
    (bookings : List Booking) (x : ℕ) → is_taken x bookings ≡ false → holder bookings x ≡ none
unfolding holder
holder_none [] x h = refl
holder_none (b ∷ bookings) x h = ground (arith, holder_none bookings x)

pub holder-append_one :
    (bookings : List Booking) (b : Booking) (x : ℕ)
    → is_active b.status ≡ true
    → is_taken b.slot_id bookings ≡ false
    → holder (bookings ++ b ∷ []) x ≡ assign b.slot_id (some b.user_id) (holder bookings) x
unfolding holder
holder-append_one [] b x a h = ground arith
holder-append_one (c ∷ bookings) b x a h = ground (arith, holder-append_one bookings b x a)

holder_same :
    (id : ℕ) (bookings : List Booking) (x : ℕ)
    → any (λ b. b.id == id) bookings ≡ false
    → holder (map (set_cancelled id) bookings) x ≡ holder bookings x
unfolding holder set_cancelled
holder_same id [] x h = refl
holder_same id (b ∷ bookings) x h = ground (arith, holder_same id bookings x)

no_other_id :
    (b : Booking) (bookings : List Booking)
    → any (bookings_clash b) bookings ≡ false
    → any (λ c. c.id == b.id) bookings ≡ false
no_other_id b [] h = refl
no_other_id b (c ∷ bookings) h = ground (arith, no_other_id b bookings)

no_holder :
    (b : Booking) (bookings : List Booking)
    → is_active b.status ≡ true
    → any (bookings_clash b) bookings ≡ false
    → holder bookings b.slot_id ≡ none
unfolding holder
no_holder b [] a h = refl
no_holder b (c ∷ bookings) a h = ground (arith, no_holder b bookings)

pub holder-first :
    (id : ℕ) (row : Booking) (bookings : List Booking)
    → Apart bookings_clash bookings
    → first (λ b. b.id == id) bookings ≡ some row
    → is_active row.status ≡ true
    → holder bookings row.slot_id ≡ some row.user_id
unfolding holder
holder-first id row [] p e a = cc
holder-first id row (b ∷ bookings) p e a = ground (
  arith,
  holder-first id row bookings p.1,
  first-not_any (λ c. c.id == id) (bookings_clash b) bookings row,
)

pub holder-cancelled :
    (id : ℕ) (row : Booking) (bookings : List Booking) (x : ℕ)
    → Apart bookings_clash bookings
    → first (λ b. b.id == id) bookings ≡ some row
    → is_active row.status ≡ true
    → holder (map (set_cancelled id) bookings) x ≡ assign row.slot_id none (holder bookings) x
unfolding holder set_cancelled
holder-cancelled id row [] x p e a = cc
holder-cancelled id row (b ∷ bookings) x p e a = ground (
  arith,
  holder_same id bookings x,
  no_other_id b bookings p.0,
  no_holder b bookings,
  holder-cancelled id row bookings x p.1,
  first-not_any (λ c. c.id == id) (bookings_clash b) bookings row,
)
