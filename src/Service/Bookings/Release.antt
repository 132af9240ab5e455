-- ===== src/Service/Bookings/Release.antt =====
-- After a cancellation of app/internal/service/booking.go: the slot is free, and the same call
-- again has the same answer and no effect.

use strike_reserve.Base.{
  Option-cases, some_inj, ℕ, ◌≡◌, refl, sym, ap, subst, ◌∙◌, inl, inr, Bool, true, false, ◌&&◌,
  List, [], ◌∷◌, map, Option, some, any, first, arith, first-not_any, any-map-false, Apart, ◌==◌,
}
use strike_reserve.Models.{Booking, Slot, cancelled, is_active}
use strike_reserve.Db.{Db, bookings_clash, has_user}
use strike_reserve.Db.Intact.{Intact}
use strike_reserve.World.{Env, World}
use strike_reserve.Exec.{Result, ok, TxManager, IsTransactional}
use strike_reserve.Repository.Bookings.{set_cancelled}
use strike_reserve.Service.Integrity.{cancel-Intact}
use strike_reserve.Service.Bookings.{cancel, cancel_in_tx}
use strike_reserve.Service.Bookings.Create.{is_taken, find_slot}
use strike_reserve.Service.Bookings.Verdict.{verdict, free, verdict-free}
use strike_reserve.Service.Bookings.Cancel.{find_booking, Change, changed, kept, cancel_success}
use strike_reserve.Service.Bookings.Replies.{Quiet, Replies, cancel-Replies, slot_of}

abbrev holds : ℕ → Booking → Bool
holds slot_id b = is_active b.status && b.slot_id == slot_id

still_free :
    (id slot_id : ℕ) (bookings : List Booking)
    → is_taken slot_id bookings ≡ false
    → is_taken slot_id (map (set_cancelled id) bookings) ≡ false
unfolding set_cancelled
still_free id slot_id bookings h =
    any-map-false (holds slot_id) (holds slot_id) (set_cancelled id) (λ b k. ground arith) bookings
      h

no_other :
    (row : Booking) (bookings : List Booking)
    → is_active row.status ≡ true
    → any (bookings_clash row) bookings ≡ false
    → is_taken row.slot_id bookings ≡ false
no_other row [] a h = refl
no_other row (b ∷ bookings) a h = ground (arith, no_other row bookings)

released :
    (id : ℕ) (row : Booking) (bookings : List Booking)
    → Apart bookings_clash bookings
    → first (λ b. b.id == id) bookings ≡ some row
    → is_active row.status ≡ true
    → is_taken row.slot_id (map (set_cancelled id) bookings) ≡ false
unfolding set_cancelled
released id row [] p e a = cc
released id row (b ∷ bookings) p e a = ground (
  arith,
  still_free id row.slot_id bookings,
  no_other row bookings,
  released id row bookings p.1,
  first-not_any (λ c. c.id == id) (bookings_clash b) bookings row,
)

find-cancelled :
    (id : ℕ) (row : Booking) (bookings : List Booking)
    → first (λ b. b.id == id) bookings ≡ some row
    → first (λ b. b.id == id) (map (set_cancelled id) bookings)
      ≡ some (record row { status = cancelled })
unfolding set_cancelled
find-cancelled id row [] e = cc
find-cancelled id row (b ∷ bookings) e = ground (arith, find-cancelled id row bookings)

module _ {C : Type 0} (env : Env C) (id user_id : ℕ) (w w' : World C) (b row : Booking) where
  pub freed :
      Intact w.db
      → is_active row.status ≡ true
      → find_booking id w.db ≡ some row
      → Change env id row w w'
      → is_taken row.slot_id w'.db.bookings ≡ false
  freed i a e (kept n d k) = cc (a, n)
  freed i a e (changed s n f d k) =
      ap (λ (x : Db). is_taken row.slot_id x.bookings) d
      ∙ released id row w.db.bookings i.bookings e a

  -- Slots and users are not touched.
  pub untouched : Change env id row w w' → (w'.db.slots ≡ w.db.slots) × (w'.db.users ≡ w.db.users)
  untouched (kept n d k) = (ap (λ (x : Db). x.slots) d, ap (λ (x : Db). x.users) d)
  untouched (changed s n f d k) = (ap (λ (x : Db). x.slots) d, ap (λ (x : Db). x.users) d)

  -- The row that a cancellation leaves is the booking that it returned.
  stored_after :
      find_booking id w.db ≡ some row
      → b ≡ record row { status = cancelled }
      → Change env id row w w'
      → find_booking id w'.db ≡ some b
  stored_after e r (kept n d k) = ap (find_booking id) d ∙ e ∙ ground arith
  stored_after e r (changed s n f d k) =
      ap (find_booking id) d ∙ find-cancelled id row w.db.bookings e ∙ ap some (sym r)

own_again :
    (user_id : ℕ) (b row : Booking) (r : Result Booking)
    → row.user_id ≡ user_id
    → b ≡ record row { status = cancelled }
    → Replies user_id (some b) r
    → r ≡ ok b
own_again user_id b row r o e h = ground arith

no-Change :
    {C : Type 0} (env : Env C) (id : ℕ) (w w' : World C) (b row found : Booking)
    → found ≡ b
    → b ≡ record row { status = cancelled }
    → Change env id found w w'
    → (w'.db ≡ w.db) × (w'.cache ≡ w.cache)
no-Change env id w w' b row found e r (kept n d k) = (d, k)
no-Change env id w w' b row found e r (changed s n f d k) = absurd (ground arith)

module _ {C : Type 0} (env : Env C) (tx : TxManager C) (t : IsTransactional C tx) where
  -- In intact tables, once an active booking has been cancelled nothing holds its slot: for every
  -- known user the slot is free to book again.
  pub cancel_frees_slot :
      (id user_id : ℕ) (w w' : World C) (b row : Booking) (u : ℕ)
      → Intact w.db
      → find_booking id w.db ≡ some row
      → is_active row.status ≡ true
      → has_user u w.db ≡ true
      → cancel env tx id user_id w ≡ (ok b, w')
      → verdict u row.slot_id w'.db ≡ free
  cancel_frees_slot id user_id w w' b row u i e a k h =
      let (found, c) = cancel_success env tx t id user_id w w' b h in
      let same : found ≡ row = some_inj (sym c.found ∙ e) in
      let change = subst (λ r. Change env id r w w') same c.change in
      let (slots, users) = untouched env id user_id w w' b row change in
      elim (Option-cases (find_slot row.slot_id w.db)) [
        | inl n ↦ absurd (slot_of w.db id row i e n)
        | inr (s, f) ↦
            verdict-free u row.slot_id w'.db s (ap (first (λ r. r.id == row.slot_id)) slots ∙ f)
              (freed env id user_id w w' b row i a e change) (ap (any (λ r. r.id == u)) users ∙ k)
      ]

  -- In intact tables a second `Cancel` by the same user returns the same booking and changes
  -- nothing, where the driver does its work and the transaction is committed.
  cancel_again :
      (id user_id : ℕ) (w w' : World C) (b : Booking)
      → Intact w.db
      → cancel env tx id user_id w ≡ (ok b, w')
      → Quiet env w'
      → ((v : World C) (x : Booking × Option Slot)
          → cancel_in_tx env id user_id w' ≡ (ok x, v)
          → tx.run (Booking × Option Slot) (cancel_in_tx env id user_id) w' ≡ (ok x, v))
      → (w'' : World C) × (cancel env tx id user_id w' ≡ (ok b, w''))
        × (w''.db ≡ w'.db)
        × (w''.cache ≡ w'.cache)
  cancel_again id user_id w w' b i h q sure =
      let (row, c) = cancel_success env tx t id user_id w w' b h in
      let stored = stored_after env id user_id w w' b row c.found c.result c.change in
      let j =
        subst (λ (x : Result Booking × World C). Intact x.1.db) h
          ((cancel-Intact env tx t id user_id).at w i) in
      let answer =
        subst (λ o. Replies user_id o (cancel env tx id user_id w').0) stored
          (cancel-Replies env tx t id user_id w' q j sure) in
      let again = own_again user_id b row (cancel env tx id user_id w').0 c.owner c.result answer in
      let w'' = (cancel env tx id user_id w').1 in
      let run : cancel env tx id user_id w' ≡ (ok b, w'') = λ i. (again i, w'') in
      let (row', d) = cancel_success env tx t id user_id w' w'' b run in
      let same : row' ≡ b = some_inj (sym d.found ∙ stored) in
      let (tables, cache) = no-Change env id w' w'' b row row' same c.result d.change in
      (w'', run, tables, cache)
