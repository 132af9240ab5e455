-- ===== src/Service/Lanes/Sharing/Holding.antt =====
-- Lists of slots in the cache and in calls of app/internal/service/lane.go, while a call moves on or the
-- tables are written.
use strike_reserve.Base.{
  ℕ, ◌≡◌, ◌≢◌, true, List, [], ◌∷◌, map, Option, some, ◌==◌, All, All-imp, Bool-cases, inl, inr,
  ◌⊎◌, arith,
}
use strike_reserve.Models.{Booking, Slot}
use strike_reserve.World.{Env, SlotCacheKey}
use strike_reserve.Repository.Bookings.{set_cancelled}
use strike_reserve.Repository.Slots.{is_booked}
use strike_reserve.Service.Bookings.Racing.{Site, update}
use strike_reserve.Service.Lanes.Sharing.{Listing, loaded, Shared, with_cache, list_at}
use strike_reserve.Service.Lanes.Sharing.Grounded.{Grounded}
use strike_reserve.Service.Lanes.Sharing.Fair.{Fair, Fair-mono, Around, cached, held, Honest}

abbrev pub NotLoaded : Listing → Type 0
NotLoaded p = (lane_id date : ℕ) (slots : List Slot) → p ≢ loaded lane_id date slots

pub loaded_inj :
    {a b c d : ℕ} {xs ys : List Slot}
    → loaded a b xs ≡ loaded c d ys
    → (a ≡ c) × (b ≡ d) × (xs ≡ ys)
loaded_inj h = (cc h, cc h, cc h)

-- After a call has moved, it holds the list that it has loaded, or another call does.
pub held_by :
    (i : ℕ) (p : Listing) (listing : ℕ → Listing) (j lane_id date : ℕ) (slots : List Slot)
    → update i p listing j ≡ loaded lane_id date slots
    → (p ≡ loaded lane_id date slots) ⊎ (listing j ≡ loaded lane_id date slots)
held_by i p listing j lane_id date slots h = elim (Bool-cases (j == i)) [
  | inl k ↦ inl (rw k at h)
  | inr k ↦ inr (rw k at h)
]

pub All-both {ℓ} :
    {A : Type 0} {X : Type ℓ} (P Q R : A → Type 0)
    → ((x : A) → P x → (X → Q x) → R x)
    → (xs : List A) → All P xs
    → (X → All Q xs)
    → All R xs
All-both P Q R f [] a b = tt
All-both P Q R f (x ∷ xs) a b = (f x a.0 (λ e. (b e).0), All-both P Q R f xs a.1 (λ e. (b e).1))

pub booked-cancelled :
    (id : ℕ) (bookings : List Booking) (s : Slot)
    → is_booked (map (set_cancelled id) bookings) s ≡ true
    → is_booked bookings s ≡ true
unfolding set_cancelled
booked-cancelled id [] s h = cc h
booked-cancelled id (b ∷ bookings) s h = ground (arith, booked-cancelled id bookings s)

module _ {C : Type 0} (env : Env C) where
  -- Lists come from where they were, and their slots stay fair.
  pub Honest-by :
      (st st' : Shared C)
      → Grounded st'.site
      → ((key : SlotCacheKey) (slots : List Slot)
          → Around env key slots st'
          → Around env key slots st)
      → ((key : SlotCacheKey) (s : Slot) → Fair env key st s → Fair env key st' s)
      → Honest env st
      → Honest env st'
  Honest-by st st' g around fair h = record {
    grounded = g;
    fair = λ key slots a. All-imp _ _ (fair key) slots (h.fair key slots (around key slots a));
  }

  pub Fair-same :
      (st : Shared C) (listing : ℕ → Listing) (c : C) (key : SlotCacheKey) (s : Slot)
      → Fair env key st s
      → Fair env key (record st { listing = listing; cache = c }) s
  Fair-same st listing c key s f = Fair-mono env key st _ s (λ k. k) (λ k. k) (λ k. k) f

  -- A call moves to a phase in which it holds no list, and the cache has no new list.
  pub Honest-moved :
      (st : Shared C) (i : ℕ) (p : Listing) (c : C)
      → NotLoaded p
      → ((key : SlotCacheKey) (slots : List Slot)
          → (env.cache_get key c).0 ≡ some slots
          → Around env key slots st)
      → Honest env st
      → Honest env (list_at i p (with_cache c st))
  Honest-moved st i p c not_loaded old h =
      Honest-by st _ h.grounded (λ key slots a. around key slots a)
        (Fair-same st (update i p st.listing) c) h
    where
      around :
          (key : SlotCacheKey) (slots : List Slot)
          → Around env key slots (list_at i p (with_cache c st))
          → Around env key slots st
      around key slots (cached e) = old key slots e
      around key slots (held j lane_id date e k) =
          elim (held_by i p st.listing j lane_id date slots e) [
            | inl x ↦ absurd (not_loaded lane_id date slots x)
            | inr x ↦ held j lane_id date x k
          ]

  Around-same :
      (st : Shared C) (site : Site) (owed : ℕ → Option SlotCacheKey) (key : SlotCacheKey)
      (slots : List Slot)
      → Around env key slots (record st { site = site; owed = owed })
      → Around env key slots st
  Around-same st site owed key slots (cached e) = cached e
  Around-same st site owed key slots (held j lane_id date e k) = held j lane_id date e k

  -- Tables are written, and what is due may change, in such a way that slots stay fair.
  pub Honest-written :
      (st : Shared C) (site : Site) (owed : ℕ → Option SlotCacheKey)
      → Grounded site
      → ((key : SlotCacheKey) (s : Slot)
          → Fair env key st s
          → Fair env key (record st { site = site; owed = owed }) s)
      → Honest env st
      → Honest env (record st { site = site; owed = owed })
  Honest-written st site owed g fair h = Honest-by st _ g (Around-same st site owed) fair h
