-- ===== src/Service/Lanes/Sharing/Stale.antt =====
-- How a list that app/internal/service/lane.go stores late brings back a slot that
-- app/internal/service/booking.go has given away.
use mathlib.Core.List.{Memᴰ}
use strike_reserve.Base.{
  ℕ, ◌≡◌, refl, true, List, [], ◌∷◌, ◌++◌, none, some, ◌==◌, ==_refl, arith, Bool-cases, inl, inr,
}
use strike_reserve.Models.{Booking, Slot, is_active}
use strike_reserve.World.{Env, SlotCacheKey}
use strike_reserve.Repository.Slots.{is_booked}
use strike_reserve.Service.Cache.{cache_key}
use strike_reserve.Service.Bookings.Create.{forgotten}
use strike_reserve.Service.Bookings.Racing.{inserted, made, move, with_bookings}
use strike_reserve.Service.Lanes.Sharing.{
  Shared, loaded, with_site, with_cache, owe, Reach, here, next, create, invalidate, store,
}

module _ {C : Type 0} (env : Env C) where
  -- A booked slot is offered from the cache, and nothing is left to be done about it: no call has a
  -- key to delete.
  pub record Stale (key : SlotCacheKey) (s : Slot) (st : Shared C) : Type 0 where
    pub slots : List Slot
    pub cached : (env.cache_get key st.cache).0 ≡ some slots
    pub offered : Memᴰ s slots
    pub booked : is_booked st.site.db.bookings s ≡ true
    pub not_due : (i : ℕ) → st.owed i ≡ none

booked-last :
    (bookings : List Booking) (b : Booking) (s : Slot)
    → b.slot_id ≡ s.id
    → is_active b.status ≡ true
    → is_booked (bookings ++ b ∷ []) s ≡ true
booked-last [] b s e a = ground arith
booked-last (c ∷ bookings) b s e a = ground (arith, booked-last bookings b s e a)

module _ {C : Type 0} (env : Env C) where
  -- With a cache that has what was set: wherever one call has loaded a list with a slot and not stored
  -- it yet, while another one has inserted a booking of this slot and not committed it yet, and no key
  -- is due, the second call can commit and delete the key before the first one stores its list. Then
  -- the cache offers the slot although it is booked, and no call has a key to delete any more.
  pub late_store-Stale :
      (st : Shared C) (i j lane_id date : ℕ) (slots : List Slot) (b : Booking) (s : Slot)
      → ((key : SlotCacheKey) (xs : List Slot) (c : C)
          → (env.cache_get key (env.cache_set key xs c)).0 ≡ some xs)
      → st.listing i ≡ loaded lane_id date slots
      → Memᴰ s slots
      → st.site.phase j ≡ inserted b s
      → b.slot_id ≡ s.id
      → is_active b.status ≡ true
      → ((k : ℕ) → st.owed k ≡ none)
      → (st' : Shared C) × Reach env st st' × Stale env (cache_key lane_id date) s st'
  late_store-Stale st i j lane_id date slots b s present load m p e a due =
      let made_one =
        with_site (with_bookings (st.site.db.bookings ++ b ∷ []) (move j (made b s) st.site)) st in
      let first = owe j (some (forgotten env s)) made_one in
      let second = owe j none (with_cache (env.cache_delete (forgotten env s) st.cache) first) in
      (
        _,
        next
            (next (next here (create st j b s p (due j)))
              (invalidate first j (forgotten env s) (rw (==_refl j) refl)))
            (store second i lane_id date slots load),
        record {
          slots = slots;
          cached = present (cache_key lane_id date) slots second.cache;
          offered = m;
          booked = booked-last st.site.db.bookings b s e a;
          not_due = λ k. elim (Bool-cases (k == j)) [ inl x ↦ rw x refl | inr x ↦ rw x (due k) ];
        },
      )
