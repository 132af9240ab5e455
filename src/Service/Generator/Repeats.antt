-- ===== src/Service/Generator/Repeats.antt =====
-- What a round of service/slot_generator.go does where slots of the days ahead are there already.
use strike_reserve.Base.{
  ℕ, suc, ◌≡◌, refl, List, [], ◌∷◌, ◌==◌, some, first, Option-cases, inl, inr,
}
use strike_reserve.Models.{Slot}
use strike_reserve.Db.{ScheduleRow}
use strike_reserve.World.{Env, World, refused, cut_short}
use strike_reserve.Exec.{◌>>=◌, attempt, query, now}
use strike_reserve.Repository.Slots.Batch.{Repeats, create_slots-repeated}
use strike_reserve.Repository.Schedules
use strike_reserve.Repository.Schedules.{schedule_of}
use strike_reserve.Service.Generation.{lookahead_slots}
use strike_reserve.Service.Lanes.{generate}
use strike_reserve.Service.Generator.{GeneratorConfig, plan, save, generate_lane}

module _ {C : Type 0} (env : Env C) where
  -- The slots of the days ahead for a row, when the lane's turn begins.
  unfoldable pub ahead : GeneratorConfig → ℕ → ScheduleRow → World C → List Slot
  ahead g lane_id row w =
      lookahead_slots (plan env g lane_id) (schedule_of env row) g.lookahead (env.now (suc w.ticks))
        (suc (suc w.ticks))

  save-repeated :
      (slots : List Slot) (w : World C) → Repeats slots w.db → (save env slots w).1.db ≡ w.db
  unfolding attempt ◌>>=◌
  save-repeated [] w h = refl
  save-repeated (s ∷ slots) w h = create_slots-repeated env (s ∷ slots) w h

  -- Where one of the slots of the days ahead is there already, the lane's turn in a round of the
  -- generator leaves the tables as they were: it adds no slot at all.
  pub generate_lane-Repeats :
      (g : GeneratorConfig) (lane_id : ℕ) (row : ScheduleRow) (w : World C)
      → first (λ r. r.lane_id == lane_id) w.db.schedules ≡ some row
      → Repeats (ahead g lane_id row w) w.db
      → (generate_lane env g lane_id w).1.db ≡ w.db
  unfolding generate_lane attempt ◌>>=◌ query now generate Schedules.get_by_lane_id ahead
  generate_lane-Repeats g lane_id row w h r = elim (Option-cases (env.fault w.ticks)) [
    | inl e ↦ rw (e, h) (save-repeated (ahead g lane_id row w) _ r)
    | inr (refused f, e) ↦ rw e refl
    | inr (cut_short n f, e) ↦ rw e refl
  ]
