-- ===== src/Service/Lanes.antt =====
-- app/internal/service/lane.go
pub mod Listing
pub mod Scheduling
pub mod Sharing
use strike_reserve.Base.{ℕ, ◌+◌, List, [], ◌∷◌, Option, none, some, length, if◌then◌else◌}
use strike_reserve.Errors.{Error, service, lane_not_found, already_exists, is_not_found, no_slots}
use strike_reserve.Models.{Lane, LaneCreate, Schedule, Slot}
use strike_reserve.World.{Env}
use strike_reserve.Exec.{
  Exec, Result, ok, err, pure, raise, on_error, attempt, ◌>>=◌, ◌>>◌, new_id, now, TxManager,
}
use strike_reserve.Repository.Lanes
use strike_reserve.Repository.Schedules
use strike_reserve.Repository.Slots
use strike_reserve.Service.Cache.{cache_key, lookup, store}
use strike_reserve.Service.Generation.{Plan, schedule_slots}

abbrev pub or_lane_not_found : Error → Error
or_lane_not_found e = if is_not_found e then service lane_not_found else e

-- The fields of LaneService that its methods read, besides the components.
pub record LaneConfig : Type 0 where
  pub slot_duration : ℕ
  pub slot_generation_days : ℕ

module _ {C : Type 0} where
  -- Slots with identifiers of their own, one uuid.New() for each.
  unfoldable pub generate : (ℕ → List Slot) → Exec C (List Slot)
  generate make w =
      let slots = make w.ticks in (ok slots, record w { ticks = w.ticks + length slots })

  -- `existingSchedules, err :=` …: a schedule that is there, or any error but "not found", ends it.
  abbrev pub none_exists : Result Schedule → Exec C (Unit {0})
  none_exists (ok s) = raise (service already_exists)
  none_exists (err e) = if is_not_found e then pure tt else raise e

  abbrev pub some_slots : List Slot → Exec C (Unit {0})
  some_slots [] = raise no_slots
  some_slots (s ∷ slots) = pure tt

module _ {C : Type 0} (env : Env C) where
  unfoldable pub create_lane : LaneCreate → Exec C Lane
  create_lane l = do
    id ← new_id env
    Lanes.create env (record {
      id = id;
      name = l.name;
      lane_type = l.lane_type;
      description = l.description;
      is_active = none;
      created_at = 0;
    })

  unfoldable pub get_all_lanes : Exec C (List Lane)
  get_all_lanes = Lanes.get_all env

  abbrev pub load_slots : ℕ → ℕ → Option (List Slot) → Exec C (List Slot)
  load_slots lane_id date (some slots) = pure slots
  load_slots lane_id date none = do
    on_error or_lane_not_found (Lanes.get env lane_id) >>= λ lane. do
      slots ← Slots.get_available_by_lane_and_date env lane_id date
      store env (cache_key lane_id date) slots
      pure slots

  -- The date is an instant in UTC.
  unfoldable pub get_available_slots : ℕ → ℕ → Exec C (List Slot)
  get_available_slots lane_id date = do
    found ← lookup env (cache_key lane_id date)
    load_slots lane_id date found

  abbrev pub plan : LaneConfig → ℕ → Plan
  plan c lane_id = record { uuid = env.uuid; lane_id = lane_id; slot_duration = c.slot_duration }

  unfoldable pub create_schedule_in_tx : LaneConfig → Schedule → Exec C Schedule
  unfolding schedule_slots
  create_schedule_in_tx c sch = do
    on_error or_lane_not_found (Lanes.get env sch.lane_id) >>= λ lane. do
      existing ← attempt (Schedules.get_by_lane_id env sch.lane_id)
      none_exists existing
      saved ← Schedules.create env sch
      at ← now env
      slots ← generate (schedule_slots (plan c sch.lane_id) sch c.slot_generation_days at)
      some_slots slots
      Slots.create_slots env slots
      pure saved

  unfoldable pub create_schedule : TxManager C → LaneConfig → Schedule → Exec C Schedule
  create_schedule tx c sch = tx.run Schedule (create_schedule_in_tx c sch)
