-- ===== src/Redis.antt =====
-- app/internal/cache/redis.go, with the keys of app/internal/app/di.go. The client and JSON are libraries.
pub mod Laws
pub mod Keys
use Prim.Native.String.{◌++◌}
use strike_reserve.Base.{ℕ, String, List, Option, none, some}
use strike_reserve.Models.{Slot}
use strike_reserve.World.{SlotCacheKey}

-- github.com/redis/go-redis: `none` is an error of Get, a missing key among them. What time does
-- to the keys is part of the server's state.
pub record RedisClient (R : Type 0) : Type 0 where
  pub get : String → R → Option String × R
  pub set : String → String → R → R
  pub del : String → R → R

-- encoding/json, for the slots of a day
pub record Json : Type 0 where
  pub marshal : List Slot → Option String
  pub unmarshal : String → Option (List Slot)

-- fmt.Sprintf("slots:%s:%s", k.LaneID, k.Date)
unfoldable pub key_to_string : (ℕ → String) → (ℕ → String) → SlotCacheKey → String
key_to_string id_text date_text k = "slots:" ++ (id_text k.lane_id ++ (":" ++ date_text k.date))

module _ {R : Type 0} (client : RedisClient R) (json : Json)
    (key_text : SlotCacheKey → String) where
  abbrev decoded : Option String × R → Option (List Slot) × R
  decoded (none, r) = (none, r)
  decoded (some text, r) = (json.unmarshal text, r)

  -- Get
  unfoldable pub get : SlotCacheKey → R → Option (List Slot) × R
  get key r = decoded (client.get (key_text key) r)

  abbrev sent : SlotCacheKey → Option String → R → R
  sent key none r = r
  sent key (some text) r = client.set (key_text key) text r

  -- Set
  unfoldable pub set : SlotCacheKey → List Slot → R → R
  set key slots r = sent key (json.marshal slots) r

  -- Delete
  unfoldable pub delete : SlotCacheKey → R → R
  delete key r = client.del (key_text key) r
