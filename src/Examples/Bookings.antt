-- ===== src/Examples/Bookings.antt =====
-- The theorems about app/internal/service/booking.go at one booking.
use strike_reserve.Base.{List, arith, refl, ◌≡◌, [], ◌∷◌}
use strike_reserve.Models.{Booking, Slot, active, cancelled}
use strike_reserve.Errors.{service, slot_is_used, wrap_db_error}
use strike_reserve.Db.{insert_booking}
use strike_reserve.Db.Intact.{Intact}
use strike_reserve.World.{World}
use strike_reserve.Exec.{ok, err, ◌>>=◌, on_error, query, at_tick, new_id}
use strike_reserve.Exec.Tx.{atomic, atomic-IsTransactional, atomic-commits}
use strike_reserve.Repository.Sql.{select_one}
use strike_reserve.Repository.Bookings
use strike_reserve.Repository.Slots
use strike_reserve.Service.Bookings.{create, create_in_tx, cancel, cancel_in_tx, forget_slot}
use strike_reserve.Service.Bookings.Create.{Booked, forgotten, create_success, create_failure}
use strike_reserve.Service.Bookings.Verdict.{Answers, verdict, free, create-Answers}
use strike_reserve.Service.Bookings.Cancel.{Cancelled, find_booking, cancel_success}
use strike_reserve.Service.Bookings.Replies.{Replies, cancel-Replies}
use strike_reserve.Service.Bookings.Ledger.Moves.{Operation, Moves, ledger, calls, calls-Moves}
use strike_reserve.Service.Bookings.Release.{cancel_frees_slot}
use strike_reserve.Examples.{Held, env, world, booking}

abbrev new_booking : Booking
new_booking = record {
  id = 1002;
  user_id = 1;
  slot_id = 7;
  status = active;
  created_at = env.now 2;
}

abbrev booked : World Held
booked = record (world (booking ∷ [])) { ticks = 1 }

abbrev after_create : World Held
after_create = (create env atomic 1 7 (world [])).1

created : create env atomic 1 7 (world []) ≡ (ok new_booking, after_create)
unfolding create create_in_tx ◌>>=◌ on_error query at_tick new_id Slots.get_by_id Bookings.create
    select_one forget_slot insert_booking
created = refl

create_success_example :
    (s : Slot) × Booked 1 7 new_booking s (world []).db after_create.db
    × (after_create.cache ≡ env.cache_delete (forgotten env s) [])
create_success_example =
    create_success env atomic atomic-IsTransactional 1 7 (world []) after_create new_booking created

abbrev refused : World Held
refused = (create env atomic 1 7 booked).1

not_created : create env atomic 1 7 booked ≡ (err (service slot_is_used), refused)
unfolding create create_in_tx ◌>>=◌ on_error query at_tick new_id Slots.get_by_id Bookings.create
    select_one forget_slot insert_booking wrap_db_error
not_created = refl

create_failure_example : (refused.db ≡ booked.db) × (refused.cache ≡ [])
create_failure_example =
    create_failure env atomic atomic-IsTransactional 1 7 booked refused (service slot_is_used)
      not_created

create-Answers_example : Answers "" (verdict 1 7 booked.db) (create env atomic 1 7 booked).0
create-Answers_example =
    create-Answers env atomic atomic-IsTransactional 1 7 booked
      (record { first_statement = refl; second_statement = refl; new = refl })
      (λ v x. atomic-commits (create_in_tx env 1 7) booked v x)

abbrev ended : Booking
ended = record booking { status = cancelled }

abbrev after_cancel : World Held
after_cancel = (cancel env atomic 9 1 booked).1

cancelled_now : cancel env atomic 9 1 booked ≡ (ok ended, after_cancel)
unfolding cancel cancel_in_tx ◌>>=◌ on_error query Slots.get_by_id Bookings.get Bookings.cancel
    select_one forget_slot
cancelled_now = refl

cancel_success_example : (row : Booking) × Cancelled env 9 1 ended row booked after_cancel
cancel_success_example =
    cancel_success env atomic atomic-IsTransactional 9 1 booked after_cancel ended cancelled_now

booked-Intact : Intact booked.db
booked-Intact = record {
  users = (refl, tt);
  lanes = (refl, tt);
  schedules = tt;
  slots = (refl, tt);
  bookings = (refl, tt);
  schedule_lane = tt;
  schedule_span = tt;
  slot_lane = (refl, tt);
  slot_span = (ground arith, tt);
  booking_user = (refl, tt);
  booking_slot = (refl, tt);
}

cancel-Replies_example : Replies 2 (find_booking 9 booked.db) (cancel env atomic 9 2 booked).0
cancel-Replies_example =
    cancel-Replies env atomic atomic-IsTransactional 9 2 booked
      (record { first_statement = refl; second_statement = refl; third_statement = refl })
      booked-Intact (λ v x. atomic-commits (cancel_in_tx env 9 2) booked v x)

cancel_frees_slot_example : verdict 1 7 after_cancel.db ≡ free
cancel_frees_slot_example =
    cancel_frees_slot env atomic atomic-IsTransactional 9 1 booked after_cancel ended booking 1
      booked-Intact refl refl refl cancelled_now

abbrev two : List Operation
two = Operation.cancel 9 1 ∷ Operation.create 1 7 ∷ []

calls-Moves_example :
    Moves
      (ledger booked.db)
      two
      (calls env atomic atomic-IsTransactional two booked).0
      (ledger (calls env atomic atomic-IsTransactional two booked).1.db)
calls-Moves_example = calls-Moves env atomic atomic-IsTransactional two booked booked-Intact
