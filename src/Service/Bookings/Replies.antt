-- ===== src/Service/Bookings/Replies.antt =====
-- `BookingService.Cancel` against a description of its answers.
use strike_reserve.Base.{
  ℕ, suc, ◌≡◌, refl, ap, ◌∙◌, inl, inr, true, false, Option, none, some, arith, any-first-none,
  All-first, Option-cases, Bool-cases, ◌==◌, if◌then◌else◌, ◌≢◌,
}
use strike_reserve.Models.{Booking, Slot, cancelled, is_active}
use strike_reserve.Errors.{service, not_found, forbidden, wrap_db_error}
use strike_reserve.Db.{Db, has_slot}
use strike_reserve.Db.Intact.{Intact}
use strike_reserve.World.{Env, World}
use strike_reserve.Exec.{Result, ok, err, TxManager, IsTransactional, ◌>>=◌, on_error, query}
use strike_reserve.Repository.Sql.{select_one}
use strike_reserve.Repository.Bookings
use strike_reserve.Repository.Slots
use strike_reserve.Service.Bookings.{cancel, cancel_in_tx, forget_slot}
use strike_reserve.Service.Bookings.Create.{find_slot}
use strike_reserve.Service.Bookings.Cancel.{find_booking}

-- The answer to a user, for the row that has the booking's id, if there is one.
abbrev pub Replies : ℕ → Option Booking → Result Booking → Type 0
Replies user_id none r = r ≡ err (service not_found)
Replies user_id (some row) r = r ≡ (
    if row.user_id == user_id
    then ok (record row { status = cancelled })
    else err (service forbidden))

-- The same of the transaction, whose result has the slot beside the booking.
abbrev ForTx : ℕ → Option Booking → Result (Booking × Option Slot) → Type 0
ForTx user_id none r = r ≡ err (service not_found)
ForTx user_id (some row) r =
    if row.user_id == user_id
    then ((o : Option Slot) × (r ≡ ok (record row { status = cancelled }, o)))
    else r ≡ err (service forbidden)

-- A stored booking has its slot.
pub slot_of :
    (db : Db) (id : ℕ) (row : Booking)
    → Intact db
    → find_booking id db ≡ some row
    → find_slot row.slot_id db ≢ none
slot_of db id row i e n =
    let there =
      All-first (λ b. has_slot b.slot_id db.slots ≡ true) (λ b. b.id == id) db.bookings row
        i.booking_slot e in
    cc (there, any-first-none (λ s. s.id == row.slot_id) db.slots n)

module _ {C : Type 0} (env : Env C) where
  -- The three statements meet no failure of the driver.
  pub record Quiet (w : World C) : Type 0 where
    pub first_statement : env.fault w.ticks ≡ none
    pub second_statement : env.fault (suc w.ticks) ≡ none
    pub third_statement : env.fault (suc (suc w.ticks)) ≡ none

  module _ (id user_id : ℕ) (w : World C) (c : Quiet w) where
    in_tx-missing :
        find_booking id w.db ≡ none → (cancel_in_tx env id user_id w).0 ≡ err (service not_found)
    unfolding cancel_in_tx ◌>>=◌ on_error query Bookings.get Slots.get_by_id Bookings.cancel
        select_one wrap_db_error
    in_tx-missing e = ground arith

    in_tx-foreign :
        (row : Booking)
        → find_booking id w.db ≡ some row
        → (row.user_id == user_id) ≡ false
        → (cancel_in_tx env id user_id w).0 ≡ err (service forbidden)
    unfolding cancel_in_tx ◌>>=◌ on_error query Bookings.get Slots.get_by_id Bookings.cancel
        select_one wrap_db_error
    in_tx-foreign row e f = ground arith

    in_tx-again :
        (row : Booking)
        → find_booking id w.db ≡ some row
        → (row.user_id == user_id) ≡ true
        → is_active row.status ≡ false
        → (cancel_in_tx env id user_id w).0 ≡ ok (record row { status = cancelled }, none)
    unfolding cancel_in_tx ◌>>=◌ on_error query Bookings.get Slots.get_by_id Bookings.cancel
        select_one wrap_db_error
    in_tx-again row e f a = ground arith

    in_tx-own :
        (row : Booking) (s : Slot)
        → find_booking id w.db ≡ some row
        → (row.user_id == user_id) ≡ true
        → is_active row.status ≡ true
        → find_slot row.slot_id w.db ≡ some s
        → (cancel_in_tx env id user_id w).0 ≡ ok (record row { status = cancelled }, some s)
    unfolding cancel_in_tx ◌>>=◌ on_error query Bookings.get Slots.get_by_id Bookings.cancel
        select_one wrap_db_error
    in_tx-own row s e f a k = ground arith

  in_tx-ForTx :
      (id user_id : ℕ) (w : World C)
      → Quiet w
      → Intact w.db
      → ForTx user_id (find_booking id w.db) (cancel_in_tx env id user_id w).0
  in_tx-ForTx id user_id w c i = elim (Option-cases (find_booking id w.db)) [
    | inl e ↦ rw e (in_tx-missing id user_id w c e)
    | inr (row, e) ↦ elim (Bool-cases (row.user_id == user_id)) [
      | inr f ↦ rw (e, f) (in_tx-foreign id user_id w c row e f)
      | inl f ↦ elim (Bool-cases (is_active row.status)) [
        | inr a ↦ rw (e, f) (none, in_tx-again id user_id w c row e f a)
        | inl a ↦ elim (Option-cases (find_slot row.slot_id w.db)) [
          | inl n ↦ absurd (slot_of w.db id row i e n)
          | inr (s, k) ↦ rw (e, f) (some s, in_tx-own id user_id w c row s e f a k)
        ]
      ]
    ]
  ]

module _ {C : Type 0} (env : Env C) (tx : TxManager C) (t : IsTransactional C tx) where
  cancel-own :
      (id user_id : ℕ) (w : World C) (b : Booking) (o : Option Slot) (w' : World C)
      → cancel_in_tx env id user_id w ≡ (ok (b, o), w')
      → tx.run (Booking × Option Slot) (cancel_in_tx env id user_id) w ≡ (ok (b, o), w')
      → (cancel env tx id user_id w).0 ≡ ok b
  unfolding cancel ◌>>=◌ forget_slot
  cancel-own id user_id w b none w' q p = ground arith
  cancel-own id user_id w b (some s) w' q p = ground arith

  cancel-in_tx :
      (id user_id : ℕ) (w : World C)
      → ((v : World C) (x : Booking × Option Slot)
          → cancel_in_tx env id user_id w ≡ (ok x, v)
          → tx.run (Booking × Option Slot) (cancel_in_tx env id user_id) w ≡ (ok x, v))
      → (o : Option Booking) (r : Result (Booking × Option Slot)) (w' : World C)
      → cancel_in_tx env id user_id w ≡ (r, w')
      → ForTx user_id o r
      → Replies user_id o (cancel env tx id user_id w).0
  unfolding cancel ◌>>=◌ forget_slot
  cancel-in_tx id user_id w sure none r w' q h = ground (
    arith,
    t.aborts (Booking × Option Slot) (cancel_in_tx env id user_id) w w' (service not_found),
  )
  cancel-in_tx id user_id w sure (some row) r w' q h = elim (Bool-cases (row.user_id == user_id)) [
    | inr f ↦
        let k : r ≡ err (service forbidden) = rw f at h in
        ground (
          arith,
          t.aborts (Booking × Option Slot) (cancel_in_tx env id user_id) w w' (service forbidden),
        )
    | inl f ↦
        let k : (o : Option Slot) × (r ≡ ok (record row { status = cancelled }, o)) = rw f at h in
        rw f (
          cancel-own id user_id w (record row { status = cancelled }) k.0 w'
            (q ∙ ap (λ x. (x, w')) k.1)
            (sure w' (record row { status = cancelled }, k.0) (q ∙ ap (λ x. (x, w')) k.1)))
  ]

  -- In intact tables, where the driver does its work and a transaction that succeeds is committed,
  -- `Cancel` answers "not found" for an unknown booking, "forbidden" for that of another user, and
  -- otherwise returns the booking as cancelled, whether it was active or not.
  pub cancel-Replies :
      (id user_id : ℕ) (w : World C)
      → Quiet env w
      → Intact w.db
      → ((v : World C) (x : Booking × Option Slot)
          → cancel_in_tx env id user_id w ≡ (ok x, v)
          → tx.run (Booking × Option Slot) (cancel_in_tx env id user_id) w ≡ (ok x, v))
      → Replies user_id (find_booking id w.db) (cancel env tx id user_id w).0
  cancel-Replies id user_id w c i sure =
      cancel-in_tx id user_id w sure (find_booking id w.db) (cancel_in_tx env id user_id w).0
        (cancel_in_tx env id user_id w).1 refl (in_tx-ForTx env id user_id w c i)
