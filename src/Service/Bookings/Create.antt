-- ===== src/Service/Bookings/Create.antt =====
-- What `BookingService.Create` of app/internal/service/booking.go does on each of its branches.
use strike_reserve.Base.{
  ℕ, ◌≡◌, refl, sym, ◌∙◌, inl, inr, Bool, true, false, ◌&&◌, List, [], ◌∷◌, ◌++◌, Option, some, any,
  first, arith, ◌==◌,
}
use strike_reserve.Models.{Booking, Slot, active, is_active}
use strike_reserve.Errors.{Error}
use strike_reserve.Db.{Db, insert_booking, bookings_clash}
use strike_reserve.World.{Env, World, SlotCacheKey}
use strike_reserve.Clock.{midnight}
use strike_reserve.Service.Cache.{cache_key}
use strike_reserve.Exec.{
  pure, ok, err, TxManager, IsTransactional, ◌>>=◌, on_error, query, at_tick, new_id,
}
use strike_reserve.Exec.Runs.{>>=-ok, >>=-err}
use strike_reserve.Exec.Tx.{run-ok, run-err}
use strike_reserve.Repository.Sql.{select_one}
use strike_reserve.Repository.Bookings
use strike_reserve.Repository.Slots
use strike_reserve.Service.Bookings.{create, create_in_tx, forget_slot}

-- Some active booking holds the slot.
abbrev pub is_taken : ℕ → List Booking → Bool
is_taken slot_id bookings = any (λ b. is_active b.status && b.slot_id == slot_id) bookings

abbrev pub find_slot : ℕ → Db → Option Slot
find_slot slot_id db = first (λ s. s.id == slot_id) db.slots

-- A booking that was made: it is new, active, the user's own, and the only change.
pub record Booked (user_id slot_id : ℕ) (b : Booking) (s : Slot) (before after : Db) : Type 0 where
  pub found : find_slot slot_id before ≡ some s
  pub was_free : is_taken slot_id before.bookings ≡ false
  pub user : b.user_id ≡ user_id
  pub slot : b.slot_id ≡ slot_id
  pub status : b.status ≡ active
  pub added : after ≡ record before { bookings = before.bookings ++ b ∷ [] }

Booked-eq :
    {user_id slot_id : ℕ} {b c : Booking} {s : Slot} {before d d' : Db}
    → Booked user_id slot_id b s before d
    → b ≡ c
    → d ≡ d'
    → Booked user_id slot_id c s before d'
Booked-eq k p q = ground arith

not_taken :
    (b : Booking) (bookings : List Booking)
    → is_active b.status ≡ true
    → any (λ c. bookings_clash c b) bookings ≡ false
    → is_taken b.slot_id bookings ≡ false
not_taken b [] a h = refl
not_taken b (c ∷ bookings) a h = ground (arith, not_taken b bookings)

module _ {C : Type 0} (env : Env C) where
  pub create_in_tx-Booked :
      (user_id slot_id : ℕ) (w w' : World C) (b : Booking) (s : Slot)
      → create_in_tx env user_id slot_id w ≡ (ok (b, s), w')
      → Booked user_id slot_id b s w.db w'.db
  unfolding create_in_tx ◌>>=◌ on_error query at_tick new_id Slots.get_by_id Bookings.create
      select_one insert_booking
  create_in_tx-Booked user_id slot_id w w' b s h = ground (arith, not_taken b w.db.bookings)

  cache-create_in_tx :
      (user_id slot_id : ℕ) (w : World C) → (create_in_tx env user_id slot_id w).1.cache ≡ w.cache
  unfolding create_in_tx ◌>>=◌ on_error query at_tick new_id Slots.get_by_id Bookings.create
  cache-create_in_tx user_id slot_id w = ground arith

  -- The key under which the slot's day is forgotten.
  abbrev pub forgotten : Slot → SlotCacheKey
  forgotten s = cache_key s.lane_id (midnight (env.wall s.start_time))

  -- What follows the transaction touches the cache only, and cannot fail.
  after_tx :
      (s : Slot) (b : Booking) (v : World C)
      → (forget_slot env s >>= λ _. pure b) v
        ≡ (ok b, record v { cache = env.cache_delete (forgotten s) v.cache })
  unfolding ◌>>=◌ forget_slot
  after_tx s b v = refl

module _ {C : Type 0} (env : Env C) (tx : TxManager C) (t : IsTransactional C tx) where
  -- Whenever `Create` returns a booking, the slot existed and had no active booking, the new row is
  -- the only change to the tables, and the slot's day is deleted from the cache.
  pub create_success :
      (user_id slot_id : ℕ) (w w' : World C) (b : Booking)
      → create env tx user_id slot_id w ≡ (ok b, w')
      → (s : Slot) × Booked user_id slot_id b s w.db w'.db
        × (w'.cache ≡ env.cache_delete (forgotten env s) w.cache)
  unfolding create
  create_success user_id slot_id w w' b h =
      let (x, v, p, q) =
        >>=-ok (tx.run (Booking × Slot) (create_in_tx env user_id slot_id)) _ w w' b h in
      let r = run-ok tx t _ _ w v x p in
      let done = create_in_tx-Booked env user_id slot_id w v x.0 x.1 r in
      let e = sym (after_tx env x.1 x.0 v) ∙ q in
      (
        x.1,
        Booked-eq done (ground arith) (ground arith),
        ground (arith, cache-create_in_tx env user_id slot_id w),
      )

  -- Whenever `Create` fails, tables and cache are as they were.
  pub create_failure :
      (user_id slot_id : ℕ) (w w' : World C) (e : Error)
      → create env tx user_id slot_id w ≡ (err e, w')
      → (w'.db ≡ w.db) × (w'.cache ≡ w.cache)
  unfolding create
  create_failure user_id slot_id w w' e h =
      elim (>>=-err (tx.run (Booking × Slot) (create_in_tx env user_id slot_id)) _ w w' e h) [
        | inl p ↦
            ground (arith, run-err tx t _ _ w w' e p, cache-create_in_tx env user_id slot_id w)
        | inr (x, v, p, q) ↦ absurd (cc (after_tx env x.1 x.0 v))
      ]
