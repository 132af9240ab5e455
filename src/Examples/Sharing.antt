-- ===== src/Examples/Sharing.antt =====
-- A list that is asked for while its slot is booked.
use mathlib.Core.List.{Memᴰ}
use strike_reserve.Base.{
  ℕ, ◌≡◌, ◌≢◌, refl, sym, ap, ◌∙◌, ◌*◌, ◌==◌, true, false, List, [], ◌∷◌, none, some, some_inj, All,
  arith, Bool-cases, inl, inr, if◌then◌else◌,
}
use strike_reserve.Models.{Slot, Booking}
use strike_reserve.Db.{insert_booking, bookings_clash}
use strike_reserve.World.{SlotCacheKey}
use strike_reserve.Repository.Slots.{is_booked, available_slots}
use strike_reserve.Repository.Sql.{order_by}
use strike_reserve.Service.Cache.{cache_key}
use strike_reserve.Service.Bookings.Racing as Calls
use strike_reserve.Service.Bookings.Racing.{
  Site, waiting, found, inserted, made, move, row, pending, with_bookings,
}
use strike_reserve.Service.Bookings.Racing.Safe.{stayed}
use strike_reserve.Service.Lanes.Sharing.{
  Shared, asked, Due, Reach, here, next, miss, lane_there, load, store, create, elsewhere, known,
  missed, list_at, with_site, loaded, answered, owe,
}
use strike_reserve.Service.Lanes.Sharing.Fair.{IsCache}
use strike_reserve.Service.Lanes.Sharing.Honest.{honest_lists, AllTimely}
use strike_reserve.Service.Lanes.Sharing.Stale.{Stale, late_store-Stale}
use strike_reserve.Examples.{Held, env, db, slot, lane, a_day, held, forget, same_key}

same_key-eq : (k l : SlotCacheKey) → same_key k l ≡ true → k ≡ l
same_key-eq k l h = ground arith

held-forget :
    (key k : SlotCacheKey) (l : List Slot) (days : Held)
    → held k (forget key days) ≡ some l
    → (k ≢ key) × (held k days ≡ some l)
held-forget key k l [] h = absurd (cc h)
held-forget key k l ((j, slots) ∷ days) h = elim (Bool-cases (same_key j key)) [
  | inl e ↦
      let (n, rest) = held-forget key k l days (rw e at h) in
      elim (Bool-cases (same_key j k)) [
        | inl f ↦ absurd (n (sym (same_key-eq j k f) ∙ same_key-eq j key e))
        | inr f ↦ (n, rw f rest)
      ]
  | inr e ↦ elim (Bool-cases (same_key j k)) [
    | inl f ↦ ((λ n. absurd (cc (sym (ap (same_key j) n ∙ e) ∙ f))), rw f (rw (e, f) at h))
    | inr f ↦ let (n, rest) = held-forget key k l days (rw (e, f) at h) in (n, rw f rest)
  ]
]

held-set : (k : SlotCacheKey) (xs : List Slot) (c : Held) → held k ((k, xs) ∷ c) ≡ some xs
held-set k xs c = ground arith

env-IsCache : IsCache env
env-IsCache = record {
  set_only = λ key k slots l c h. elim (Bool-cases (same_key key k)) [
    | inl e ↦ inl (sym (same_key-eq key k e), some_inj (sym (rw e at h)))
    | inr e ↦ inr (rw e at h)
  ];
  deleted = held-forget;
  got = λ key k l c h. h;
}

abbrev start : Shared Held
start = record {
  site = record { db = db []; phase = λ i. waiting 1 7 };
  cache = [];
  listing = λ i. asked 3 (6 * a_day);
  owed = λ i. none;
}

abbrev at_work : Shared Held
at_work = list_at 0 (known 3 (6 * a_day)) (list_at 0 (missed 3 (6 * a_day)) start)

abbrev key : SlotCacheKey
key = cache_key 3 (6 * a_day)

abbrev holding : Shared Held
holding = list_at 0 (loaded 3 (6 * a_day) (slot ∷ [])) at_work

asking : Reach env start holding
unfolding available_slots order_by
asking =
    next
      (next (next here (miss start 0 3 (6 * a_day) [] refl refl))
        (lane_there (list_at 0 (missed 3 (6 * a_day)) start) 0 3 (6 * a_day) lane refl refl))
      (load at_work 0 3 (6 * a_day) refl)

abbrev stored : Shared Held
stored = record holding {
  listing = λ i. if i == 0 then answered (slot ∷ []) else holding.listing i;
  cache = (key, slot ∷ []) ∷ [];
}

-- The booking of the second call.
abbrev entered : Site
entered = move 1 (inserted (row 20 5 1 slot) slot) (move 1 (found 1 slot) start.site)

none_pending :
    (j : ℕ) (c : Booking)
    → j ≢ 1
    → pending ((move 1 (found 1 slot) start.site).phase j) ≡ some c
    → bookings_clash c (row 20 5 1 slot) ≡ false
none_pending j c n h = absurd (never (stayed pending 1 (found 1 slot) start.site.phase j c refl h))
  where
    never : none ≡ some c → ⊥
    never e = cc e

-- It finds the slot and inserts, whatever the calls for lists do.
entering :
    (before st : Shared Held)
    → Reach env before (with_site start.site st)
    → Reach env before (with_site entered st)
unfolding insert_booking
entering before st r =
    let at_slot = move 1 (found 1 slot) start.site in
    next
      (next r (
        elsewhere (with_site start.site st) at_slot (Calls.find start.site 1 1 7 slot refl refl)
          refl refl))
      (elsewhere (with_site at_slot st) entered
        (Calls.insert at_slot _ 1 20 5 1 slot refl refl none_pending) refl refl)

late_store-Stale_example :
    (st : Shared Held) × Reach env (with_site entered holding) st × Stale env key slot st
late_store-Stale_example =
    late_store-Stale env (with_site entered holding) 0 1 3 (6 * a_day) (slot ∷ []) (row 20 5 1 slot)
      slot (λ k xs c. held-set k xs c) refl (Memᴰ.head refl) refl refl refl (λ k. refl)

-- The list is stored before the booking is committed.
abbrev committed : Shared Held
committed = owe 1 (some key) (
    with_site (with_bookings (row 20 5 1 slot ∷ []) (move 1 (made (row 20 5 1 slot) slot) entered))
      stored)

booking_late : Reach env start committed
booking_late =
    next (entering start stored (next asking (store holding 0 3 (6 * a_day) (slot ∷ []) refl)))
      (create (with_site entered stored) 1 (row 20 5 1 slot) slot refl refl)

-- No key is deleted.
in_time : AllTimely env start committed booking_late
unfolding booking_late entering asking available_slots order_by insert_booking
in_time = (((((((tt, tt), tt), tt), tt), tt), tt), tt)

honest_lists_example :
    All (λ s. is_booked committed.site.db.bookings s ≡ true → Due key committed) (slot ∷ [])
honest_lists_example =
    honest_lists env start committed booking_late key (slot ∷ []) env-IsCache (λ t. refl)
      (record {
        apart = (refl, tt);
        not_begun = λ i. (1, 7, refl);
        not_cached = λ k. refl;
        not_loaded = λ i l d x e. cc e;
      })
      in_time refl
