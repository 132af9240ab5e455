-- ===== src/Examples/Racing.antt =====
-- Two calls at the same time, and one alone.
use strike_reserve.Base.{
  arith, inl, inr, subst, some_inj, ◌+◌, ◌*◌, false, ℕ, ◌≡◌, ◌≢◌, refl, [], ◌∷◌, none, some, Apart,
}
use strike_reserve.Models.{Booking}
use strike_reserve.Db.{insert_booking, bookings_clash}
use strike_reserve.Service.Bookings.Racing.{
  waiting, found, inserted, made, Site, Reach, here, next, find, insert, commit, move, row, pending,
  with_bookings,
}
use strike_reserve.Service.Bookings.Racing.Safe.{stayed, came_from}
use strike_reserve.Service.Bookings.Racing.Winner.{Fresh, racing-Apart, racing_winner}
use strike_reserve.Service.Bookings.Racing.Alone.{create_in_tx-Reach}
use strike_reserve.Exec.{◌>>=◌, on_error, query, at_tick, new_id}
use strike_reserve.Repository.Sql.{select_one}
use strike_reserve.Repository.Bookings
use strike_reserve.Repository.Slots
use strike_reserve.Service.Bookings.{create_in_tx}
use strike_reserve.Models.{Slot}
use strike_reserve.Examples.{a_day, an_hour, env, db, slot, world}

abbrev later_slot : Slot
later_slot = record slot {
  id = 8;
  start_time = 6 * a_day + 11 * an_hour;
  end_time = 6 * a_day + 12 * an_hour;
}

-- The first call wants the first slot, the second one the other.
abbrev start : Site
start = record {
  db = record (db []) { slots = slot ∷ later_slot ∷ [] };
  phase = λ i. waiting 1 (7 + i);
}

abbrev first_row : Booking
first_row = row 20 5 1 slot

abbrev second_row : Booking
second_row = row 21 6 1 later_slot

-- Both find their slots before either of them inserts.
abbrev both_found : Site
both_found = move 1 (found 1 later_slot) (move 0 (found 1 slot) start)

abbrev both_in : Site
both_in = move 1 (inserted second_row later_slot) (move 0 (inserted first_row slot) both_found)

abbrev first_done : Site
first_done = with_bookings (first_row ∷ []) (move 0 (made first_row slot) both_in)

abbrev both_done : Site
both_done =
    with_bookings (first_row ∷ second_row ∷ []) (move 1 (made second_row later_slot) first_done)

none_pending :
    (j : ℕ) (c : Booking)
    → j ≢ 0
    → pending (both_found.phase j) ≡ some c
    → bookings_clash c first_row ≡ false
none_pending j c n h = absurd (
    never (
      stayed pending 0 (found 1 slot) start.phase j c refl
        (stayed pending 1 (found 1 later_slot) (move 0 (found 1 slot) start).phase j c refl h)))
  where
    never : none ≡ some c → ⊥
    never e = cc e

-- The first call's row is of another slot.
first_pending :
    (j : ℕ) (c : Booking)
    → j ≢ 1
    → pending ((move 0 (inserted first_row slot) both_found).phase j) ≡ some c
    → bookings_clash c second_row ≡ false
first_pending j c n h =
    elim (came_from pending 0 (inserted first_row slot) both_found.phase j c h) [
      | inl (e, k) ↦ subst (λ x. bookings_clash x second_row ≡ false) (some_inj k) refl
      | inr (e, k) ↦ absurd (
          never (
            stayed pending 0 (found 1 slot) start.phase j c refl (
              stayed pending 1 (found 1 later_slot) (move 0 (found 1 slot) start).phase j c refl
                k)))
    ]
  where
    never : none ≡ some c → ⊥
    never e = cc e

race : Reach env start both_done
unfolding insert_booking
race =
    next
      (next
        (next
          (next
            (next (next here (find start 0 1 7 slot refl refl))
              (find (move 0 (found 1 slot) start) 1 1 8 later_slot refl refl))
            (insert both_found _ 0 20 5 1 slot refl refl none_pending))
          (insert (move 0 (inserted first_row slot) both_found) _ 1 21 6 1 later_slot refl refl
            first_pending))
        (commit both_in 0 first_row slot refl))
      (commit first_done 1 second_row later_slot refl)

start-Fresh : Fresh start
start-Fresh = record { apart = tt; not_pending = λ i. refl; not_finished = λ i. refl }

racing-Apart_example : Apart bookings_clash both_done.db.bookings
racing-Apart_example = racing-Apart env start both_done start-Fresh race

racing_winner_example : first_row.slot_id ≢ second_row.slot_id
racing_winner_example =
    racing_winner env start both_done 0 1 first_row second_row start-Fresh race (ground arith) refl
      refl refl refl

abbrev alone : Site
alone = record { db = db []; phase = λ i. waiting 1 7 }

create_in_tx-Reach_example :
    (st : Site) × Reach env alone st
    × (st.db ≡ (create_in_tx env 1 7 (world [])).1.db)
    × (st.phase 0 ≡ made (row 1002 (env.now 2) 1 slot) slot)
unfolding create_in_tx ◌>>=◌ on_error query at_tick new_id Slots.get_by_id Bookings.create
    select_one insert_booking
create_in_tx-Reach_example =
    create_in_tx-Reach env 1 7 0 (world []) (create_in_tx env 1 7 (world [])).1
      (row 1002 (env.now 2) 1 slot) slot (λ i. waiting 1 7) refl refl (λ j n. refl)
