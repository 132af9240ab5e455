-- ===== src/Service/Cache.antt =====
-- The uses of the slot cache in app/internal/service/lane.go.
use strike_reserve.Base.{ℕ, List, Option}
use strike_reserve.Clock.{day_of}
use strike_reserve.Models.{Slot}
use strike_reserve.World.{Env, SlotCacheKey}
use strike_reserve.Exec.{Exec, ok}

-- SlotCacheKey{LaneID: …, Date: date.Format("2006-01-02")}, for a reading of the wall clock
abbrev pub cache_key : ℕ → ℕ → SlotCacheKey
cache_key lane_id date = record { lane_id = lane_id; date = day_of date }

module _ {C : Type 0} (env : Env C) where
  unfoldable pub lookup : SlotCacheKey → Exec C (Option (List Slot))
  lookup key w =
      let (found, cache) = env.cache_get key w.cache in (ok found, record w { cache = cache })

  unfoldable pub store : SlotCacheKey → List Slot → Exec C (Unit {0})
  store key slots w = (ok tt, record w { cache = env.cache_set key slots w.cache })

  -- LaneService.InvalidateSlotsCache
  unfoldable pub invalidate_slots_cache : ℕ → ℕ → Exec C (Unit {0})
  invalidate_slots_cache lane_id date w =
      (ok tt, record w { cache = env.cache_delete (cache_key lane_id date) w.cache })
