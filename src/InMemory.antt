-- ===== src/InMemory.antt =====
-- app/internal/cache/inmemory.go: the cache of the seed script, which hands each call on to
-- golang-lru.
use strike_reserve.Base.{ℕ, List, Option}
use strike_reserve.Models.{Slot}
use strike_reserve.World.{SlotCacheKey}

-- github.com/hashicorp/golang-lru/v2/expirable, with its own size, clock and order of use.
pub record Lru (S : Type 0) : Type 0 where
  pub empty : ℕ → ℕ → S
  pub find : SlotCacheKey → S → Option (List Slot) × S
  pub put : SlotCacheKey → List Slot → S → S
  pub remove : SlotCacheKey → S → S

module _ {S : Type 0} (lru : Lru S) where
  unfoldable pub new_in_memory_lru_cache : ℕ → ℕ → S
  new_in_memory_lru_cache size duration = lru.empty size duration

  unfoldable pub get : SlotCacheKey → S → Option (List Slot) × S
  get key storage = lru.find key storage

  unfoldable pub set : SlotCacheKey → List Slot → S → S
  set key value storage = lru.put key value storage

  unfoldable pub delete : SlotCacheKey → S → S
  delete key storage = lru.remove key storage
