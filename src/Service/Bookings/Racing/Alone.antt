-- ===== src/Service/Bookings/Racing/Alone.antt =====
-- A call of `Create` of app/internal/service/booking.go on its own is one of the interleavings.
use strike_reserve.Base.{
  ℕ, ◌≡◌, ◌≢◌, refl, sym, ap, subst, ◌∙◌, Option, none, some, ◌==◌, ==_iff, first-passes, arith, [],
  ◌∷◌, ◌++◌,
}
use strike_reserve.Models.{Booking, Slot}
use strike_reserve.Db.{Db, done, insert_booking}
use strike_reserve.World.{Env, World}
use strike_reserve.Exec.{ok, ◌>>=◌, on_error, query, at_tick, new_id}
use strike_reserve.Repository.Sql.{select_one}
use strike_reserve.Repository.Bookings
use strike_reserve.Repository.Slots
use strike_reserve.Service.Bookings.{create_in_tx}
use strike_reserve.Service.Bookings.Create.{Booked, create_in_tx-Booked, find_slot}
use strike_reserve.Service.Bookings.Racing.Safe.{stayed}
use strike_reserve.Service.Bookings.Racing.{
  Phase, waiting, found, inserted, made, Site, at_itself, move, pending, row, find, insert, commit,
  Reach, here, next,
}

module _ {C : Type 0} (env : Env C) where
  insert-create_in_tx :
      (user_id slot_id : ℕ) (w w' : World C) (b : Booking) (s : Slot)
      → create_in_tx env user_id slot_id w ≡ (ok (b, s), w')
      → insert_booking b w.db ≡ done tt w'.db
  unfolding create_in_tx ◌>>=◌ on_error query at_tick new_id Slots.get_by_id Bookings.create
      select_one
  insert-create_in_tx user_id slot_id w w' b s h = ground arith

row-Booked :
    {user_id slot_id : ℕ} {b : Booking} {s : Slot} {before after : Db}
    → Booked user_id slot_id b s before after
    → row b.id b.created_at user_id s ≡ b
row-Booked {user_id} {slot_id} {b} {s} {before} {after} k =
    let id = (==_iff s.id slot_id).0 (first-passes (λ r. r.id == slot_id) before.slots s k.found) in
    ground arith

none_some : {o : Option Booking} {c : Booking} → o ≡ none → o ≡ some c → ⊥
none_some h k = cc (sym h ∙ k)

module _ {C : Type 0} (env : Env C) where
  -- The three steps.
  path :
      (user_id slot_id i id at : ℕ) (db db' : Db) (s : Slot) (phase : ℕ → Phase)
      → find_slot slot_id db ≡ some s
      → insert_booking (row id at user_id s) db ≡ done tt db'
      → phase i ≡ waiting user_id slot_id
      → ((j : ℕ) → j ≢ i → pending (phase j) ≡ none)
      → (st : Site) × Reach env (record { db = db; phase = phase }) st
        × (st.db ≡ record db { bookings = db.bookings ++ row id at user_id s ∷ [] })
        × (st.phase i ≡ made (row id at user_id s) s)
  path user_id slot_id i id at db db' s phase f h w alone =
      let b = row id at user_id s in
      let st : Site = record { db = db; phase = phase } in
      let st' = move i (found user_id s) st in
      let st'' = move i (inserted b s) st' in
      let first = find st i user_id slot_id s w f in
      let second =
        insert st' db' i id at user_id s (at_itself i (found user_id s) phase) h (λ j c n p.
          absurd (none_some (alone j n) (stayed pending i (found user_id s) phase j c refl p))) in
      let third = commit st'' i b s (at_itself i (inserted b s) st'.phase) in
      (_, next (next (next here first) second) third, refl, at_itself i (made b s) st''.phase)

  -- What `Create` does to the tables when it runs by itself and makes a booking, it does as a call
  -- among others too, where no other call has inserted a row that is not committed: there is an
  -- interleaving at whose end the tables are those that it leaves, and it has answered with the
  -- booking.
  pub create_in_tx-Reach :
      (user_id slot_id i : ℕ) (w w' : World C) (b : Booking) (s : Slot) (phase : ℕ → Phase)
      → create_in_tx env user_id slot_id w ≡ (ok (b, s), w')
      → phase i ≡ waiting user_id slot_id
      → ((j : ℕ) → j ≢ i → pending (phase j) ≡ none)
      → (st : Site) × Reach env (record { db = w.db; phase = phase }) st
        × (st.db ≡ w'.db)
        × (st.phase i ≡ made b s)
  create_in_tx-Reach user_id slot_id i w w' b s phase h at alone =
      let k = create_in_tx-Booked env user_id slot_id w w' b s h in
      let r = row-Booked k in
      let (st, reach, db, answer) =
        path user_id slot_id i b.id b.created_at w.db w'.db s phase k.found
          (subst (λ x. insert_booking x w.db ≡ done tt w'.db) (sym r)
            (insert-create_in_tx env user_id slot_id w w' b s h))
          at alone in
      (
        st,
        reach,
        db ∙ ap (λ x. record w.db { bookings = w.db.bookings ++ x ∷ [] }) r ∙ sym k.added,
        answer ∙ ap (λ x. made x s) r,
      )
