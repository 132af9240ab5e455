-- ===== src/Service/Availability.antt =====
-- What a user sees of a lane's day, by app/internal/service/lane.go, after service/booking.go has
-- made or cancelled a booking for one of its slots.
use mathlib.Core.List.{Memᴰ}
use strike_reserve.Base.{
  ℕ, ◌≡◌, refl, sym, ap, subst, ◌∙◌, Bool, true, false, List, [], ◌∷◌, ◌++◌, none, some, some_inj,
  All, All-imp, Bool-cases, inl, inr, arith, ◌==◌, first, first-passes,
}
use strike_reserve.Clock.{day_of, midnight}
use strike_reserve.Models.{Booking, Slot, is_active}
use strike_reserve.Db.{Db}
use strike_reserve.Db.Intact.{Intact}
use strike_reserve.World.{Env, World, SlotCacheKey}
use strike_reserve.Exec.{ok, TxManager, IsTransactional}
use strike_reserve.Service.Bookings.{create, cancel}
use strike_reserve.Service.Bookings.Create.{create_success, find_slot, forgotten, is_taken}
use strike_reserve.Service.Bookings.Cancel.{Change, changed, kept, find_booking, cancel_success}
use strike_reserve.Service.Bookings.Release.{freed, untouched}
use strike_reserve.Service.Cache.{cache_key}
use strike_reserve.Service.Lanes.{get_available_slots}
use strike_reserve.Service.Lanes.Listing.{held, miss}

-- A key that was deleted is not found.
abbrev pub Forgets : {C : Type 0} → Env C → Type 0
Forgets {C} env =
    (key : SlotCacheKey) (c : C) → (env.cache_get key (env.cache_delete key c)).0 ≡ none

-- The process runs in UTC.
abbrev pub InUtc : {C : Type 0} → Env C → Type 0
InUtc env = (t : ℕ) → env.wall t ≡ t

All-last : {A : Type 0} (P : A → Type 0) (xs : List A) (x : A) → All P (xs ++ x ∷ []) → P x
All-last P [] x h = h.0
All-last P (y ∷ xs) x h = All-last P xs x h.1

Memᴰ-first : {A : Type 0} (p : A → Bool) (xs : List A) (x : A) → first p xs ≡ some x → Memᴰ x xs
Memᴰ-first p [] x h = absurd (cc h)
Memᴰ-first p (y ∷ xs) x h = elim (Bool-cases (p y)) [
  | inl k ↦ Memᴰ.head (some_inj (sym (rw k at h)))
  | inr k ↦ Memᴰ.tail (Memᴰ-first p xs x (rw k at h))
]

not_taken-unbooked :
    (slot_id : ℕ) (bookings : List Booking)
    → is_taken slot_id bookings ≡ false
    → All (λ b. is_active b.status ≡ true → (b.slot_id == slot_id) ≡ false) bookings
not_taken-unbooked slot_id [] h = tt
not_taken-unbooked slot_id (b ∷ bookings) h =
    ((λ a. ground arith), not_taken-unbooked slot_id bookings (ground arith))

-- The key that a cancellation deletes is that of the row's slot.
cache-cancelled :
    {C : Type 0} (env : Env C) (id : ℕ) (w w' : World C) (row : Booking) (s : Slot)
    → is_active row.status ≡ true
    → find_slot row.slot_id w.db ≡ some s
    → Change env id row w w'
    → w'.cache ≡ env.cache_delete (forgotten env s) w.cache
cache-cancelled env id w w' row s a f (kept n d k) = absurd (cc (a, n))
cache-cancelled env id w w' row s a f (changed r n g d k) =
    k ∙ ap (λ x. env.cache_delete (forgotten env x) w.cache) (some_inj (sym g ∙ f))

module _ {C : Type 0} (env : Env C) (forgets : Forgets env) (utc : InUtc env) where
  -- In UTC the key that is deleted for a slot is that of its day.
  held-forgotten :
      (s : Slot) (date : ℕ) (w w' : World C)
      → day_of date ≡ day_of s.start_time
      → w'.cache ≡ env.cache_delete (forgotten env s) w.cache
      → held env s.lane_id date w' ≡ none
  held-forgotten s date w w' d h =
      let day : day_of date ≡ day_of (midnight (env.wall s.start_time)) =
        rw (utc s.start_time) (omega (arith, d)) in
      let key : cache_key s.lane_id date ≡ forgotten env s =
        λ i. record { lane_id = s.lane_id; date = day i } in
      ap (λ k. (env.cache_get k w'.cache).0) key
      ∙ ap (λ c. (env.cache_get (forgotten env s) c).0) h
      ∙ forgets (forgotten env s) w.cache

  module _ (tx : TxManager C) (t : IsTransactional C tx) where
    -- With a cache that forgets what is deleted and in UTC: after a booking was made, a list of its
    -- lane's day does not have the slot.
    pub create_hides :
        (user_id slot_id : ℕ) (w w' w'' : World C) (b : Booking) (s : Slot) (date : ℕ)
        (slots : List Slot)
        → create env tx user_id slot_id w ≡ (ok b, w')
        → find_slot slot_id w.db ≡ some s
        → day_of date ≡ day_of s.start_time
        → get_available_slots env s.lane_id date w' ≡ (ok slots, w'')
        → All (λ r. (slot_id == r.id) ≡ false) slots
    create_hides user_id slot_id w w' w'' b s date slots h f d k =
        let (r, booked, cache) = create_success env tx t user_id slot_id w w' b h in
        let same : r ≡ s = some_inj (sym booked.found ∙ f) in
        let gone =
          held-forgotten s date w w' d
            (cache ∙ ap (λ x. env.cache_delete (forgotten env x) w.cache) same) in
        let offer = miss env s.lane_id date w' w'' slots gone k in
        All-imp _ _
          (λ x o.
            let last =
              All-last (λ c. is_active c.status ≡ true → (c.slot_id == x.id) ≡ false) w.db.bookings
                b
                (subst
                  (λ (e : Db).
                    All (λ c. is_active c.status ≡ true → (c.slot_id == x.id) ≡ false) e.bookings)
                  booked.added o.1.unbooked) in
            ap (λ n. n == x.id) (sym booked.slot) ∙ last (ap is_active booked.status))
          slots offer.sound

    -- With a cache that forgets what is deleted and in UTC: in intact tables, after an active booking
    -- was cancelled, a list of its lane's day has its slot.
    pub cancel_shows :
        (id user_id : ℕ) (w w' w'' : World C) (b row : Booking) (s : Slot) (date : ℕ)
        (slots : List Slot)
        → Intact w.db
        → find_booking id w.db ≡ some row
        → is_active row.status ≡ true
        → find_slot row.slot_id w.db ≡ some s
        → day_of date ≡ day_of s.start_time
        → cancel env tx id user_id w ≡ (ok b, w')
        → get_available_slots env s.lane_id date w' ≡ (ok slots, w'')
        → Memᴰ s slots
    cancel_shows id user_id w w' w'' b row s date slots i e a f d h k =
        let (found, c) = cancel_success env tx t id user_id w w' b h in
        let same : found ≡ row = some_inj (sym c.found ∙ e) in
        let change = subst (λ r. Change env id r w w') same c.change in
        let tables = untouched env id user_id w w' b row change in
        let free = freed env id user_id w w' b row i a e change in
        let own : s.id ≡ row.slot_id =
          ground (arith, first-passes (λ (r : Slot). r.id == row.slot_id) w.db.slots s f) in
        let gone = held-forgotten s date w w' d (cache-cancelled env id w w' row s a f change) in
        let offer = miss env s.lane_id date w' w'' slots gone k in
        offer.complete s
          (subst (λ xs. Memᴰ s xs) (sym tables.0)
            (Memᴰ-first (λ (r : Slot). r.id == row.slot_id) w.db.slots s f))
          (record {
            lane = refl;
            from = omega (arith, d);
            before = omega (arith, d);
            unbooked = not_taken-unbooked s.id w'.db.bookings (rw own free);
          })
