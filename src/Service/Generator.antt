-- ===== src/Service/Generator.antt =====
-- app/internal/service/slot_generator.go: one round of the background generator. Its errors are
-- logged only. `Run` calls it once at the start and again on each tick of its timer.
pub mod Repeats
use strike_reserve.Base.{ℕ, zero, suc, List, [], ◌∷◌}
use strike_reserve.Models.{Lane, Schedule, Slot}
use strike_reserve.World.{Env}
use strike_reserve.Exec.{Exec, Result, ok, err, pure, attempt, ◌>>=◌, ◌>>◌, now}
use strike_reserve.Repository.Lanes
use strike_reserve.Repository.Schedules
use strike_reserve.Repository.Slots
use strike_reserve.Service.Generation.{Plan, lookahead_slots}
use strike_reserve.Service.Lanes.{generate}

pub record GeneratorConfig : Type 0 where
  pub slot_duration : ℕ
  pub lookahead : ℕ

module _ {C : Type 0} (env : Env C) where
  -- CreateSlots, where there are slots; the error is logged.
  abbrev pub save : List Slot → Exec C (Unit {0})
  save [] = pure tt
  save (s ∷ slots) = do saved ← attempt (Slots.create_slots env (s ∷ slots)); pure tt

  abbrev pub plan : GeneratorConfig → ℕ → Plan
  plan g lane_id = record { uuid = env.uuid; lane_id = lane_id; slot_duration = g.slot_duration }

  abbrev pub fill : GeneratorConfig → ℕ → Result Schedule → Exec C (Unit {0})
  fill g lane_id (err e) = pure tt
  fill g lane_id (ok sch) = do
    start ← now env
    slots ← generate (lookahead_slots (plan g lane_id) sch g.lookahead start)
    save slots

  -- The body of the loop over the lanes.
  unfoldable pub generate_lane : GeneratorConfig → ℕ → Exec C (Unit {0})
  unfolding lookahead_slots
  generate_lane g lane_id = do
    found ← attempt (Schedules.get_by_lane_id env lane_id)
    fill g lane_id found

  unfoldable pub generate_lanes : GeneratorConfig → List Lane → Exec C (Unit {0})
  unfolding generate_lane
  generate_lanes g [] = pure tt
  generate_lanes g (lane ∷ lanes) = generate_lane g lane.id >> generate_lanes g lanes

  abbrev pub over : GeneratorConfig → Result (List Lane) → Exec C (Unit {0})
  over g (err e) = pure tt
  over g (ok lanes) = generate_lanes g lanes

  unfoldable pub generate_all : GeneratorConfig → Exec C (Unit {0})
  unfolding generate_lanes
  generate_all g = do lanes ← attempt (Lanes.get_all env); over g lanes

  -- The first round, and one for each tick that the timer delivers before the context ends.
  unfoldable pub run : GeneratorConfig → ℕ → Exec C (Unit {0})
  unfolding generate_all
  run g zero = generate_all g
  run g (suc ticks) = generate_all g >> run g ticks
