-- ===== src/Service/Lanes/Sharing/Alone.antt =====
-- A call of GetAvailableSlots of app/internal/service/lane.go on its own is one of the interleavings.
use strike_reserve.Base.{ℕ, ◌≡◌, refl, sym, ap, ◌∙◌, List, Option, none, some, ◌⊎◌, inl, inr, arith}
use strike_reserve.Clock.{midnight}
use strike_reserve.Models.{Lane, Slot}
use strike_reserve.World.{Env, World}
use strike_reserve.Exec.{ok, ◌>>=◌, on_error, query}
use strike_reserve.Repository.Sql.{select_one}
use strike_reserve.Repository.Lanes
use strike_reserve.Repository.Slots
use strike_reserve.Repository.Slots.{available_slots}
use strike_reserve.Service.Cache.{cache_key, lookup, store}
use strike_reserve.Service.Lanes.{get_available_slots}
use strike_reserve.Service.Bookings.Racing.{at_itself}
use strike_reserve.Service.Lanes.Sharing.{
  Shared, asked, missed, known, loaded, answered, list_at, with_cache, find_lane, Reach, here, next,
  hit, miss, lane_there, load, store as store_step,
}

Read-cases :
    {C : Type 0} (x : Option (List Slot) × C)
    → ((l : List Slot) × (c : C) × (x ≡ (some l, c))) ⊎ ((c : C) × (x ≡ (none, c)))
Read-cases (some l, c) = inl (l, c, refl)
Read-cases (none, c) = inr (c, refl)

module _ {C : Type 0} (env : Env C) (lane_id date : ℕ) (w w' : World C) (slots : List Slot)
    (answer : get_available_slots env lane_id date w ≡ (ok slots, w')) where
  hit_lem :
      (l : List Slot) (c : C)
      → env.cache_get (cache_key lane_id date) w.cache ≡ (some l, c)
      → (l ≡ slots) × (w'.cache ≡ c)
  unfolding get_available_slots ◌>>=◌ lookup
  hit_lem l c h = ground arith

  -- What a call that finds nothing in the cache comes to.
  record Missed (c : C) : Type 0 where
    there : (l : Lane) × (find_lane lane_id w.db ≡ some l)
    list : slots ≡ available_slots lane_id (midnight date) w.db
    stored : w'.cache ≡ env.cache_set (cache_key lane_id date) slots c

  miss_lem : (c : C) → env.cache_get (cache_key lane_id date) w.cache ≡ (none, c) → Missed c
  unfolding get_available_slots ◌>>=◌ lookup store on_error query Lanes.get select_one
      Slots.get_available_by_lane_and_date
  miss_lem c h = record {
    there = there (find_lane lane_id w.db) refl;
    list = ground arith;
    stored = ground arith;
  }
    where
      there :
          (o : Option Lane)
          → find_lane lane_id w.db ≡ o
          → (l : Lane) × (find_lane lane_id w.db ≡ some l)
      there (some l) e = (l, e)
      there none e = absurd (ground arith)

-- A call that runs by itself and answers is a call among others: from tables and cache as it finds
-- them, whatever the other calls are at, there is an interleaving at whose end it has given the same
-- answer, the cache is as it leaves it, and nothing else has changed.
module _ {C : Type 0} (env : Env C) where
  pub get_available_slots-Reach :
      (lane_id date i : ℕ) (w w' : World C) (slots : List Slot) (st : Shared C)
      → get_available_slots env lane_id date w ≡ (ok slots, w')
      → st.site.db ≡ w.db
      → st.cache ≡ w.cache
      → st.listing i ≡ asked lane_id date
      → (st' : Shared C) × Reach env st st'
        × (st'.listing i ≡ answered slots)
        × (st'.cache ≡ w'.cache)
        × (st'.site ≡ st.site)
        × (st'.owed ≡ st.owed)
  get_available_slots-Reach lane_id date i w w' slots st h d e a =
      elim (Read-cases (env.cache_get (cache_key lane_id date) w.cache)) [
        | inl (l, c, k) ↦
            let (list, stored) = hit_lem env lane_id date w w' slots h l c k in
            (
              _,
              next here
                  (hit st i lane_id date l c a (ap (env.cache_get (cache_key lane_id date)) e ∙ k)),
              at_itself i (answered l) st.listing ∙ ap answered list,
              sym stored,
              refl,
              refl,
            )
        | inr (c, k) ↦
            let m = miss_lem env lane_id date w w' slots h c k in
            let one = list_at i (missed lane_id date) (with_cache c st) in
            let two = list_at i (known lane_id date) one in
            let offer = available_slots lane_id (midnight date) st.site.db in
            let three = list_at i (loaded lane_id date offer) two in
            let same : offer ≡ slots =
              ap (available_slots lane_id (midnight date)) d ∙ sym m.list in
            (
              _,
              next
                  (next
                    (next
                      (next here (
                        miss st i lane_id date c a
                          (ap (env.cache_get (cache_key lane_id date)) e ∙ k)))
                      (lane_there one i lane_id date m.there.0
                        (at_itself i (missed lane_id date) st.listing)
                        (ap (find_lane lane_id) d ∙ m.there.1)))
                    (load two i lane_id date (at_itself i (known lane_id date) one.listing)))
                  (store_step three i lane_id date offer
                    (at_itself i (loaded lane_id date offer) two.listing)),
              at_itself i (answered offer) three.listing ∙ ap answered same,
              ap (λ x. env.cache_set (cache_key lane_id date) x c) same ∙ sym m.stored,
              refl,
              refl,
            )
      ]
