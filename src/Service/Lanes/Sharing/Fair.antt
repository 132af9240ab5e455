-- ===== src/Service/Lanes/Sharing/Fair.antt =====
-- What holds of every list of slots that app/internal/service/lane.go has loaded or cached, while
-- app/internal/service/booking.go makes and cancels bookings.
use strike_reserve.Base.{
  ℕ, ◌≡◌, ◌≢◌, refl, sym, ap, subst, ◌∙◌, true, false, List, [], ◌∷◌, ◌++◌, Option, none, some,
  some_inj, ◌==◌, ==_iff, ==_refl, All, All-imp, arith, Bool-cases, inl, inr, ◌⊎◌, ◌&&◌,
}
use strike_reserve.Clock.{day_of, midnight}
use strike_reserve.Models.{Booking, Slot, is_active}
use strike_reserve.World.{Env, SlotCacheKey}
use strike_reserve.Repository.Slots.{is_booked, available_slots}
use strike_reserve.Repository.Slots.Available.{Open, available_slots-Offer, of-unbooked}
use strike_reserve.Service.Availability.{InUtc}
use strike_reserve.Service.Cache.{cache_key}
use strike_reserve.Service.Bookings.Create.{find_slot, forgotten}
use strike_reserve.Service.Bookings.Racing.{Site}
use strike_reserve.Service.Lanes.Sharing.Grounded.{Grounded, found-Memᴰ}
use strike_reserve.Service.Lanes.Sharing.{owe, with_site, Shared, loaded, Due, with_cache}

-- What is expected of a cache: a key has the list that was set last, or none, and none at all once it
-- is deleted; and reading brings no list.
pub record IsCache {C : Type 0} (env : Env C) : Type 0 where
  pub set_only :
      (key k : SlotCacheKey) (slots l : List Slot) (c : C)
      → (env.cache_get k (env.cache_set key slots c)).0 ≡ some l
      → ((k ≡ key) × (l ≡ slots)) ⊎ ((env.cache_get k c).0 ≡ some l)
  pub deleted :
      (key k : SlotCacheKey) (l : List Slot) (c : C)
      → (env.cache_get k (env.cache_delete key c)).0 ≡ some l
      → (k ≢ key) × ((env.cache_get k c).0 ≡ some l)
  pub got :
      (key k : SlotCacheKey) (l : List Slot) (c : C)
      → (env.cache_get k (env.cache_get key c).1).0 ≡ some l
      → (env.cache_get k c).0 ≡ some l

module _ {C : Type 0} (env : Env C) where
  -- A slot in a list of the key: if it is booked, the key has still to be deleted.
  pub record Fair (key : SlotCacheKey) (st : Shared C) (s : Slot) : Type 0 where
    pub known : find_slot s.id st.site.db ≡ some s
    pub day : forgotten env s ≡ key
    pub due : is_booked st.site.db.bookings s ≡ true → Due key st

  -- The list is in the cache, or a call has loaded it and not stored it yet.
  pub data Around (key : SlotCacheKey) (slots : List Slot) (st : Shared C) : Type 0 where
    cached : (env.cache_get key st.cache).0 ≡ some slots → Around key slots st
    held :
        (i lane_id date : ℕ)
        → st.listing i ≡ loaded lane_id date slots
        → cache_key lane_id date ≡ key
        → Around key slots st

  pub record Honest (st : Shared C) : Type 0 where
    pub grounded : Grounded st.site
    pub fair :
        (key : SlotCacheKey) (slots : List Slot) → Around key slots st → All (Fair key st) slots

booked-last :
    (bookings : List Booking) (b : Booking) (s : Slot)
    → is_booked (bookings ++ b ∷ []) s ≡ true
    → (is_booked bookings s ≡ true) ⊎ (s.id ≡ b.slot_id)
booked-last [] b s h = inr (ground arith)
booked-last (c ∷ bookings) b s h = elim (Bool-cases (s.id == c.slot_id && is_active c.status)) [
  | inl k ↦ inl (rw k refl)
  | inr k ↦ elim (booked-last bookings b s (rw k at h)) [ inl l ↦ inl (rw k l) | inr l ↦ inr l ]
]

module _ {C : Type 0} where
  pub Due-owe :
      (key : SlotCacheKey) (i : ℕ) (k : Option SlotCacheKey) (st : Shared C)
      → st.owed i ≡ none
      → Due key st
      → Due key (owe i k st)
  Due-owe key i k st none_owed (j, h) = elim (Bool-cases (j == i)) [
    | inl e ↦ absurd (cc (sym (subst (λ n. st.owed n ≡ some key) ((==_iff j i).0 e) h) ∙ none_owed))
    | inr e ↦ (j, rw e h)
  ]

module _ {C : Type 0} (env : Env C) where
  -- A slot stays fair where it is still found, is not newly booked, and what is due stays due.
  pub Fair-mono :
      (key : SlotCacheKey) (st st' : Shared C) (s : Slot)
      → (find_slot s.id st.site.db ≡ some s → find_slot s.id st'.site.db ≡ some s)
      → (is_booked st'.site.db.bookings s ≡ true → is_booked st.site.db.bookings s ≡ true)
      → (Due key st → Due key st')
      → Fair env key st s
      → Fair env key st' s
  Fair-mono key st st' s known less due f = record {
    known = known f.known;
    day = f.day;
    due = λ h. due (f.due (less h));
  }

  -- A booking is made: the key of its slot is due.
  pub Fair-created :
      (key : SlotCacheKey) (st : Shared C) (i : ℕ) (b : Booking) (t : Slot) (site : Site) (s : Slot)
      → st.owed i ≡ none
      → find_slot b.slot_id st.site.db ≡ some t
      → site.db ≡ record st.site.db { bookings = st.site.db.bookings ++ b ∷ [] }
      → Fair env key st s
      → Fair env key (owe i (some (forgotten env t)) (with_site site st)) s
  Fair-created key st i b t site s none_owed there same f = record {
    known = rw same f.known;
    day = f.day;
    due = λ h. elim (booked-last st.site.db.bookings b s (rw same at h)) [
      | inl old ↦ Due-owe key i _ (with_site site st) none_owed (f.due old)
      | inr new ↦
          let slot : t ≡ s =
            some_inj (sym there ∙ ap (λ n. find_slot n st.site.db) (sym new) ∙ f.known) in
          (i, rw (==_refl i) (ap some (ap (forgotten env) slot ∙ f.day)))
    ];
  }

  -- The key is deleted, and another one stays due.
  pub Fair-paid :
      (key k : SlotCacheKey) (st : Shared C) (i : ℕ) (c : C) (s : Slot)
      → st.owed i ≡ some k
      → Fair env key st s
      → (key ≡ k → is_booked st.site.db.bookings s ≡ false)
      → Fair env key (owe i none (with_cache c st)) s
  Fair-paid key k st i c s owing f free = record {
    known = f.known;
    day = f.day;
    due = λ h. paid h (f.due h);
  }
    where
      paid :
          is_booked st.site.db.bookings s ≡ true
          → Due key st
          → Due key (owe i none (with_cache c st))
      paid h (j, o) = elim (Bool-cases (j == i)) [
        | inl e ↦
            let same : key ≡ k =
              some_inj (sym (subst (λ n. st.owed n ≡ some key) ((==_iff j i).0 e) o) ∙ owing) in
            absurd (cc (sym h ∙ free same))
        | inr e ↦ (j, rw e o)
      ]

  -- What the tables offer is fair.
  pub Fair-loaded :
      (lane_id date : ℕ) (st : Shared C)
      → InUtc env
      → Grounded st.site
      → All
          (Fair env (cache_key lane_id date) st)
          (available_slots lane_id (midnight date) st.site.db)
  Fair-loaded lane_id date st utc g =
      All-imp _ _
        (λ s o. record {
          known = found-Memᴰ st.site.db.slots s g.apart o.0;
          day = day-Open s o.1;
          due = λ h. absurd (cc (sym h ∙ of-unbooked s st.site.db.bookings o.1.unbooked));
        })
        _ (available_slots-Offer lane_id (midnight date) st.site.db).sound
    where
      day-Open :
          (s : Slot)
          → Open lane_id (midnight date) st.site.db.bookings s
          → forgotten env s ≡ cache_key lane_id date
      day-Open s o =
          let day : day_of (midnight (env.wall s.start_time)) ≡ day_of date =
            rw (utc s.start_time) (omega (arith, o.from, o.before)) in
          λ i. record { lane_id = o.lane i; date = day i }
