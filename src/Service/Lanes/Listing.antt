-- ===== src/Service/Lanes/Listing.antt =====
-- `LaneService.GetAvailableSlots` of app/internal/service/lane.go behind its cache, and what a booking
-- and its cancellation in service/booking.go do to its answers.
use strike_reserve.Base.{ℕ, ◌≡◌, subst, List, Option, none, some, arith}
use strike_reserve.Clock.{midnight}
use strike_reserve.Models.{Slot}
use strike_reserve.World.{Env, World}
use strike_reserve.Exec.{ok, ◌>>=◌, on_error, query}
use strike_reserve.Repository.Sql.{select_one}
use strike_reserve.Repository.Lanes
use strike_reserve.Repository.Slots
use strike_reserve.Repository.Slots.{available_slots}
use strike_reserve.Repository.Slots.Available.{Offer, available_slots-Offer}
use strike_reserve.Service.Cache.{cache_key, lookup, store}
use strike_reserve.Service.Lanes.{get_available_slots}

module _ {C : Type 0} (env : Env C) where
  -- What the cache holds for a day of a lane.
  abbrev pub held : ℕ → ℕ → World C → Option (List Slot)
  held lane_id date w = (env.cache_get (cache_key lane_id date) w.cache).0

  -- An answer that was held is given as it is; no statement is sent.
  pub hit :
      (lane_id date : ℕ) (w : World C) (slots : List Slot)
      → held lane_id date w ≡ some slots
      → (get_available_slots env lane_id date w).0 ≡ ok slots
  unfolding get_available_slots ◌>>=◌ lookup
  hit lane_id date w slots h = ground arith

  pub miss :
      (lane_id date : ℕ) (w w' : World C) (slots : List Slot)
      → held lane_id date w ≡ none
      → get_available_slots env lane_id date w ≡ (ok slots, w')
      → Offer lane_id (midnight date) w.db slots
  unfolding get_available_slots ◌>>=◌ lookup store on_error query Lanes.get select_one
      Slots.get_available_by_lane_and_date
  miss lane_id date w w' slots h k =
      let e : available_slots lane_id (midnight date) w.db ≡ slots = ground arith in
      subst (Offer lane_id (midnight date) w.db) e
        (available_slots-Offer lane_id (midnight date) w.db)
