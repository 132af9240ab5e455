-- ===== src/Service/Lanes/Sharing.antt =====
-- Lists of slots that are asked for while bookings are made and cancelled: GetAvailableSlots and
-- InvalidateSlotsCache of app/internal/service/lane.go, and the calls of service/booking.go, step by
-- step on one database and one cache.
pub mod Alone
pub mod Fair
pub mod Grounded
pub mod Holding
pub mod Honest
pub mod Stale
use strike_reserve.Base.{ℕ, ◌≡◌, ◌++◌, List, [], ◌∷◌, map, Option, none, some, first, ◌==◌}
use strike_reserve.Clock.{midnight}
use strike_reserve.Models.{Booking, Slot, Lane}
use strike_reserve.Errors.{Error, service, lane_not_found}
use strike_reserve.Db.{Db, done}
use strike_reserve.World.{Env, SlotCacheKey}
use strike_reserve.Repository.Bookings.{set_cancelled}
use strike_reserve.Repository.Slots.{available_slots, insert_slots}
use strike_reserve.Service.Cache.{cache_key}
use strike_reserve.Service.Bookings.Create.{find_slot, forgotten}
use strike_reserve.Service.Bookings.Cancel.{find_booking}
use strike_reserve.Service.Bookings.Racing as Calls
use strike_reserve.Service.Bookings.Racing.{Site, update, inserted, made, move, with_bookings}

-- How far a call of GetAvailableSlots is.
pub data Listing : Type 0 where
  asked : (lane_id : ℕ) → (date : ℕ) → Listing
  missed : (lane_id : ℕ) → (date : ℕ) → Listing
  known : (lane_id : ℕ) → (date : ℕ) → Listing
  loaded : (lane_id : ℕ) → (date : ℕ) → List Slot → Listing
  answered : List Slot → Listing
  failed : Error → Listing

-- The tables with the calls of `Create`, the cache, the calls of GetAvailableSlots, and the key that a
-- call of `Create` or `Cancel`, once committed, has still to delete.
pub record Shared (C : Type 0) : Type 0 where
  pub site : Site
  pub cache : C
  pub listing : ℕ → Listing
  pub owed : ℕ → Option SlotCacheKey

abbrev pub find_lane : ℕ → Db → Option Lane
find_lane lane_id db = first (λ l. l.id == lane_id) db.lanes

module _ {C : Type 0} where
  abbrev pub list_at : ℕ → Listing → Shared C → Shared C
  list_at i l st = record st { listing = update i l st.listing }

  abbrev pub with_cache : C → Shared C → Shared C
  with_cache c st = record st { cache = c }

  abbrev pub with_site : Site → Shared C → Shared C
  with_site s st = record st { site = s }

  abbrev pub owe : ℕ → Option SlotCacheKey → Shared C → Shared C
  owe i key st = record st { owed = update i key st.owed }

  -- Some call has still to delete the key.
  abbrev pub Due : SlotCacheKey → Shared C → Type 0
  Due key st = (i : ℕ) × (st.owed i ≡ some key)

module _ {C : Type 0} (env : Env C) where
  pub data Step : Shared C → Shared C → Type 0 where
    -- s.cache.Get
    hit :
        (st : Shared C) (i lane_id date : ℕ) (slots : List Slot) (c : C)
        → st.listing i ≡ asked lane_id date
        → env.cache_get (cache_key lane_id date) st.cache ≡ (some slots, c)
        → Step st (list_at i (answered slots) (with_cache c st))
    miss :
        (st : Shared C) (i lane_id date : ℕ) (c : C)
        → st.listing i ≡ asked lane_id date
        → env.cache_get (cache_key lane_id date) st.cache ≡ (none, c)
        → Step st (list_at i (missed lane_id date) (with_cache c st))
    -- s.laneRepo.Get
    lane_there :
        (st : Shared C) (i lane_id date : ℕ) (l : Lane)
        → st.listing i ≡ missed lane_id date
        → find_lane lane_id st.site.db ≡ some l
        → Step st (list_at i (known lane_id date) st)
    no_lane :
        (st : Shared C) (i lane_id date : ℕ)
        → st.listing i ≡ missed lane_id date
        → find_lane lane_id st.site.db ≡ none
        → Step st (list_at i (failed (service lane_not_found)) st)
    -- s.slotRepo.GetAvailableByLaneAndDate
    load :
        (st : Shared C) (i lane_id date : ℕ)
        → st.listing i ≡ known lane_id date
        → Step st (
            list_at i (loaded lane_id date (available_slots lane_id (midnight date) st.site.db)) st)
    -- s.cache.Set
    store :
        (st : Shared C) (i lane_id date : ℕ) (slots : List Slot)
        → st.listing i ≡ loaded lane_id date slots
        → Step st (
            list_at i
              (answered slots)
              (with_cache (env.cache_set (cache_key lane_id date) slots st.cache) st))
    -- a statement that fails, or a call that is given up
    fail : (st : Shared C) (i : ℕ) (e : Error) → Step st (list_at i (failed e) st)
    -- a new call
    ask :
        (st : Shared C) (i lane_id date : ℕ) (slots : List Slot)
        → st.listing i ≡ answered slots
        → Step st (list_at i (asked lane_id date) st)
    -- the commits of `Create` and `Cancel`
    create :
        (st : Shared C) (i : ℕ) (b : Booking) (s : Slot)
        → st.site.phase i ≡ inserted b s
        → st.owed i ≡ none
        → Step st (
            owe i (some (forgotten env s)) (
              with_site
                (with_bookings (st.site.db.bookings ++ b ∷ []) (move i (made b s) st.site))
                st))
    cancel :
        (st : Shared C) (i id : ℕ) (b : Booking) (s : Slot)
        → find_booking id st.site.db ≡ some b
        → find_slot b.slot_id st.site.db ≡ some s
        → st.owed i ≡ none
        → Step st (
            owe i
              (some (forgotten env s))
              (with_site (with_bookings (map (set_cancelled id) st.site.db.bookings) st.site) st))
    -- InvalidateSlotsCache
    invalidate :
        (st : Shared C) (i : ℕ) (key : SlotCacheKey)
        → st.owed i ≡ some key
        → Step st (owe i none (with_cache (env.cache_delete key st.cache) st))
    -- any other step of a call of `Create`, and what is written to other tables
    elsewhere :
        (st : Shared C) (site : Site)
        → Calls.Step env st.site site
        → site.db.bookings ≡ st.site.db.bookings
        → site.db.slots ≡ st.site.db.slots
        → Step st (with_site site st)
    -- CreateSlots of CreateSchedule and of the generator
    slots_made :
        (st : Shared C) (slots : List Slot) (db : Db)
        → insert_slots slots st.site.db ≡ done tt db
        → Step st (with_site (record st.site { db = db }) st)
    -- the cache drops lists by itself
    expire :
        (st : Shared C) (c : C)
        → ((key : SlotCacheKey) (slots : List Slot)
            → (env.cache_get key c).0 ≡ some slots
            → (env.cache_get key st.cache).0 ≡ some slots)
        → Step st (with_cache c st)

  pub data Reach (start : Shared C) : Shared C → Type 0 where
    here : Reach start start
    next : {st st' : Shared C} → Reach start st → Step st st' → Reach start st'
