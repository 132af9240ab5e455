-- ===== src/World.antt =====
-- What a request can see and change: the database, the slot cache, and how much of the outside
-- world (identifiers, clock readings, statements sent) has been used up. `Env` is that outside.
use strike_reserve.Base.{ℕ, String, Bool, List, Option}
use strike_reserve.Models.{Slot}
use strike_reserve.Models.Hms.{Text}
use strike_reserve.Errors.{DriverError}
use strike_reserve.Db.{Db, Violation}

-- SlotCacheKey of service/lane.go. The date text "2006-01-02" is the number of its day.
pub record SlotCacheKey : Type 0 where
  pub lane_id : ℕ
  pub date : ℕ

-- How a statement meets a failure: before anything is read, or after some of its rows.
pub data Failure : Type 0 where
  refused : DriverError → Failure
  cut_short : ℕ → DriverError → Failure

-- Everything that is not the program's own code, indexed by the number of uses before.
pub record Env (C : Type 0) : Type 0 where
  -- uuid.New() and gen_random_uuid()
  pub uuid : ℕ → ℕ
  -- time.Now().UTC() and now()
  pub now : ℕ → ℕ
  -- the failure of the driver, where a statement meets one; it is then not carried out
  pub fault : ℕ → Option Failure
  -- the texts of the server's errors
  pub detail : Violation → String
  pub message : Violation → String
  -- the server's order of texts
  pub name_le : String → String → Bool
  -- the server's reading and printing of the type TIME
  pub time_in : Text → Option ℕ
  pub time_out : ℕ → Text
  -- the wall clock of the process's zone, at which the driver hands out a stored instant
  pub wall : ℕ → ℕ
  -- the `Cache` of service/interfaces.go
  pub cache_get : SlotCacheKey → C → Option (List Slot) × C
  pub cache_set : SlotCacheKey → List Slot → C → C
  pub cache_delete : SlotCacheKey → C → C

pub record World (C : Type 0) : Type 0 where
  pub db : Db
  pub cache : C
  pub ticks : ℕ
