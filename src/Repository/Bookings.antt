-- ===== src/Repository/Bookings.antt =====
-- app/internal/repository/booking.go
pub mod Pages
use strike_reserve.Base.{
  ℕ, ◌*◌, ◌%◌, Bool, ◌&&◌, ◌||◌, List, [], ◌∷◌, ◌++◌, map, select, take, drop, length, ltb, leb,
  ◌==◌, if◌then◌else◌,
}
use strike_reserve.Models.{Booking, BookingList, Slot, cancelled, is_active}
use strike_reserve.Db.{Db, Effect, done, violates, out_of_range, insert_booking}
use strike_reserve.World.{Env}
use strike_reserve.Exec.{Exec, pure, at_tick, ◌>>=◌, query, query_rows_unchecked, now}
use strike_reserve.Repository.Sql.{select_one, returning, order_by, bigint_end}
use strike_reserve.Base.Int.{u64_mod}

-- b.created_at ASC, b.id ASC
abbrev pub by_creation : Booking → Booking → Bool
by_creation b c = ltb b.created_at c.created_at || (b.created_at == c.created_at && leb b.id c.id)

abbrev pub by_start : Booking × Slot → Booking × Slot → Bool
by_start (b, s) (c, t) = leb s.start_time t.start_time

-- bookings b JOIN slots s ON b.slot_id = s.id
pair_with : Booking → List Slot → List (Booking × Slot)
pair_with b [] = []
pair_with b (s ∷ slots) =
    if b.slot_id == s.id then (b, s) ∷ pair_with b slots else pair_with b slots

unfoldable pub join_slots : List Booking → List Slot → List (Booking × Slot)
unfolding pair_with
join_slots [] slots = []
join_slots (b ∷ bookings) slots = pair_with b slots ++ join_slots bookings slots

-- UPDATE bookings SET status = 'cancelled' WHERE id = …
unfoldable pub set_cancelled : ℕ → Booking → Booking
set_cancelled id b = if b.id == id then record b { status = cancelled } else b

abbrev pub upcoming : ℕ → ℕ → Booking × Slot → Bool
upcoming user_id at (b, s) = b.user_id == user_id && is_active b.status && ltb at s.start_time

abbrev booking_of : Booking × Slot → Booking
booking_of (b, s) = b

-- LIMIT and OFFSET over the ordered rows.
unfoldable pub page_of : ℕ → ℕ → List Booking → List Booking
page_of limit offset rows = take limit (drop offset (order_by by_creation rows))

unfoldable pub list_statement : ℕ → ℕ → Db → Effect (List Booking)
unfolding page_of
list_statement limit offset db =
    if leb bigint_end limit || leb bigint_end offset
    then violates out_of_range
    else done (page_of limit offset db.bookings) db

module _ {C : Type 0} (env : Env C) where
  -- The id and the time of creation come back from the server.
  unfoldable pub create : Booking → Exec C Booking
  create b = at_tick λ n.
      let row : Booking = record b { id = env.uuid n; created_at = env.now n } in
      query env (λ db. returning row (insert_booking row db))

  unfoldable pub get : ℕ → Exec C Booking
  unfolding select_one
  get booking_id = query env (λ db. select_one (λ b. b.id == booking_id) db.bookings db)

  -- The user is not part of the statement, and an update of no row is no error.
  unfoldable pub cancel : ℕ → ℕ → Exec C (Unit {0})
  unfolding set_cancelled
  cancel booking_id user_id =
      query env
        (λ db. done tt (record db { bookings = map (set_cancelled booking_id) db.bookings }))

  unfoldable pub get_active_by_user_id : ℕ → Exec C (List Booking)
  unfolding join_slots
  get_active_by_user_id user_id = do
    at ← now env
    query_rows_unchecked env (λ db.
        done
          (map booking_of
            (order_by by_start (select (upcoming user_id at) (join_slots db.bookings db.slots))))
          db)

  unfoldable pub get_list : ℕ → ℕ → Exec C BookingList
  unfolding list_statement
  get_list limit page = do
    total ← query env (λ db. done (length db.bookings) db)
    rows ← query_rows_unchecked env (list_statement limit (page * limit % u64_mod))
    pure (record { bookings = rows; total = total })
