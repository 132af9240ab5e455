-- ===== src/Service/Timetable/Filling.antt =====
-- CreateSchedule of app/internal/service/lane.go and a lane's turn of service/slot_generator.go keep to
-- the timetable.
use strike_reserve.Base.{
  ℕ, suc, ◌<◌, ◌≡◌, ◌⊎◌, refl, sym, ap, subst, ◌∙◌, List, [], ◌∷◌, ◌++◌, some, first, first-append,
  first-append_one, All, All-imp, All-append, arith, ◌==◌, ==_refl, inl, inr, Option-cases,
}
use strike_reserve.Models.{Slot, Schedule}
use strike_reserve.Models.Hms.{Text, TimeOfDay, time_or_zero, parse_hms, value}
use strike_reserve.Db.{Db, ScheduleRow}
use strike_reserve.World.{Env, World, refused, cut_short}
use strike_reserve.Exec.{Result, ok, err, TxManager, IsTransactional, ◌>>=◌, attempt, query, now}
use strike_reserve.Exec.Keeps.{Keeps}
use strike_reserve.Repository.Schedules
use strike_reserve.Repository.Schedules.{scanned, schedule_of}
use strike_reserve.Repository.Schedules.Saving.{Reads, RowOf}
use strike_reserve.Repository.Slots.{create_slots}
use strike_reserve.Repository.Slots.Batch.{with_slots, create_slots-ok, create_slots-err}
use strike_reserve.Service.Generation.Turns.{InTurn, schedule_slots-InTurn, lookahead_slots-InTurn}
use strike_reserve.Service.Lanes.{LaneConfig, generate, create_schedule}
use strike_reserve.Service.Lanes as Lanes
use strike_reserve.Service.Lanes.Scheduling.{
  Scheduled, slots_at, create_schedule_success, create_schedule_failure,
}
use strike_reserve.Service.Generator.{GeneratorConfig, plan, save, generate_lane}
use strike_reserve.Service.Generator.Repeats.{ahead}
use strike_reserve.Service.Timetable.{Placed, Timetable}

-- The program can read the hours.
pub record Legible (sch : Schedule) : Type 0 where
  pub opens : (r : TimeOfDay) × (parse_hms sch.start_time ≡ some r)
  pub closes : (r : TimeOfDay) × (parse_hms sch.end_time ≡ some r)

module _ {C : Type 0} (env : Env C) where
  -- A text that the program can read and that the server has read is given back by the server with
  -- the same hour and minute.
  pub record ReadsBack : Type 0 where
    pub at :
        (t : Text) (n : ℕ) (r : TimeOfDay)
        → parse_hms t ≡ some r
        → env.time_in t ≡ some n
        → ((time_or_zero (scanned env (env.time_out n))).hour ≡ r.hour)
          × ((time_or_zero (scanned env (env.time_out n))).minute ≡ r.minute)

value-same : (t text : Text) → value t ≡ some text → t ≡ text
unfolding value
value-same [] text h = absurd (cc h)
value-same (c ∷ t) text h = cc h

module _ {C : Type 0} (env : Env C) (back : ReadsBack env) where
  read_back :
      (t : Text) (n : ℕ)
      → (r : TimeOfDay) × (parse_hms t ≡ some r)
      → Reads env t n
      → ((time_or_zero (scanned env (env.time_out n))).hour ≡ (time_or_zero t).hour)
        × ((time_or_zero (scanned env (env.time_out n))).minute ≡ (time_or_zero t).minute)
  unfolding time_or_zero
  read_back t n (r, p) (text, v, i) =
      let (h, m) = back.at t n r p (ap env.time_in (value-same t text v) ∙ i) in
      (h ∙ rw (p, time_or_zero) refl, m ∙ rw (p, time_or_zero) refl)

  -- The slots of a schedule are placed once its row stands in the table.
  Placed-new :
      (c : LaneConfig) (sch : Schedule) (row : ScheduleRow) (schedules : List ScheduleRow)
      (s : Slot)
      → Legible sch
      → RowOf env sch row
      → first (λ r. r.lane_id == sch.lane_id) schedules ≡ some row
      → InTurn
          (Lanes.plan env c sch.lane_id)
          (time_or_zero sch.start_time)
          (time_or_zero sch.end_time)
          s
      → Placed env c.slot_duration schedules s
  Placed-new c sch row schedules s l r found t =
      let open_at = read_back sch.start_time row.start_time l.opens r.opens in
      let close_at = read_back sch.end_time row.end_time l.closes r.closes in
      record {
        row = row;
        found = subst (λ n. first (λ x. x.lane_id == n) schedules ≡ some row) (sym t.lane) found;
        closes = omega (arith, t.closes, close_at.0, close_at.1);
        length = t.length;
        turn = t.turn;
        start = omega (arith, t.start, open_at.0, open_at.1);
      }

  Scheduled-Timetable :
      (c : LaneConfig) (sch : Schedule) (before after : Db)
      → 0 < c.slot_duration
      → Legible sch
      → Scheduled env c sch before after
      → Timetable env c.slot_duration before
      → Timetable env c.slot_duration after
  Scheduled-Timetable c sch before after d l k t =
      let schedules = before.schedules ++ k.row ∷ [] in
      let found : first (λ r. r.lane_id == sch.lane_id) schedules ≡ some k.row =
        first-append_one (λ r. r.lane_id == sch.lane_id) before.schedules k.row k.fresh
          (rw k.kept.lane (==_refl sch.lane_id)) in
      let all : All (Placed env c.slot_duration schedules)
          (before.slots ++ slots_at env c sch k.at) =
        All-append (Placed env c.slot_duration schedules) _ _
          (All-imp _ _
            (λ s p. record {
              row = p.row;
              found =
                  first-append (λ r. r.lane_id == s.lane_id) before.schedules (k.row ∷ []) p.row
                    p.found;
              closes = p.closes;
              length = p.length;
              turn = p.turn;
              start = p.start;
            })
            before.slots t.placed)
          (All-imp _ _ (λ s i. Placed-new c sch k.row schedules s l k.kept found i) _
            (schedule_slots-InTurn (Lanes.plan env c sch.lane_id) sch c.slot_generation_days
              (env.now k.at) (suc k.at) d)) in
      subst (Timetable env c.slot_duration) (sym k.added) (record { placed = all })

  module _ (tx : TxManager C) (tr : IsTransactional C tx) where
    pub create_schedule-Timetable :
        (c : LaneConfig) (sch : Schedule)
        → 0 < c.slot_duration
        → Legible sch
        → Keeps (Timetable env c.slot_duration) (create_schedule env tx c sch)
    create_schedule-Timetable c sch d l = record {
      at = λ w t.
          split w t (create_schedule env tx c sch w).0 (create_schedule env tx c sch w).1 refl;
    }
      where
        split :
            (w : World C)
            → Timetable env c.slot_duration w.db
            → (r : Result Schedule) (w' : World C) → create_schedule env tx c sch w ≡ (r, w')
            → Timetable env c.slot_duration w'.db
        split w t (ok u) w' e =
            Scheduled-Timetable c sch w.db w'.db d l
              (create_schedule_success env tx tr c sch u w w' e).0 t
        split w t (err x) w' e =
            subst (Timetable env c.slot_duration)
              (sym (create_schedule_failure env tx tr c sch w w' x e)) t

module _ {C : Type 0} (env : Env C) where
  -- The tables after a lane's turn, from those before it.
  abbrev Filled : List Slot → Db → Db → Type 0
  Filled slots before after = (after ≡ before) ⊎ (after ≡ with_slots before slots)

  save-Filled : (slots : List Slot) (w : World C) → Filled slots w.db (save env slots w).1.db
  unfolding attempt ◌>>=◌
  save-Filled [] w = inl refl
  save-Filled (s ∷ slots) w =
      saved (create_slots env (s ∷ slots) w).0 (create_slots env (s ∷ slots) w).1 refl
    where
      saved :
          (r : Result (Unit {0})) (w' : World C)
          → create_slots env (s ∷ slots) w ≡ (r, w')
          → Filled (s ∷ slots) w.db w'.db
      saved (ok tt) w' e = inr (create_slots-ok env (s ∷ slots) w w' e).0
      saved (err x) w' e = inl (create_slots-err env (s ∷ slots) w w' x e)

  -- The lane has a row, and the turn has added the slots ahead of it, or the turn has added nothing.
  record Turned (g : GeneratorConfig) (lane_id : ℕ) (w : World C) (after : Db) : Type 0 where
    row : ScheduleRow
    found : first (λ r. r.lane_id == lane_id) w.db.schedules ≡ some row
    added : after ≡ with_slots w.db (ahead env g lane_id row w)

  generate_lane-Turned :
      (g : GeneratorConfig) (lane_id : ℕ) (w : World C)
      → ((generate_lane env g lane_id w).1.db ≡ w.db)
        ⊎ Turned g lane_id w (generate_lane env g lane_id w).1.db
  unfolding generate_lane attempt ◌>>=◌ query now generate Schedules.get_by_lane_id ahead
  generate_lane-Turned g lane_id w = elim (Option-cases (env.fault w.ticks)) [
    | inr (refused f, e) ↦ inl (rw e refl)
    | inr (cut_short n f, e) ↦ inl (rw e refl)
    | inl e ↦
        elim (Option-cases (first (λ (r : ScheduleRow). r.lane_id == lane_id) w.db.schedules)) [
          | inl h ↦ inl (rw (e, h) refl)
          | inr (row, h) ↦ elim (save-Filled (ahead env g lane_id row w) _) [
            | inl k ↦ inl (rw (e, h) k)
            | inr k ↦ inr (record { row = row; found = h; added = rw (e, h) k })
          ]
        ]
  ]

  Turned-Timetable :
      (g : GeneratorConfig) (lane_id : ℕ) (w : World C) (after : Db)
      → 0 < g.slot_duration
      → Turned g lane_id w after
      → Timetable env g.slot_duration w.db
      → Timetable env g.slot_duration after
  unfolding ahead schedule_of
  Turned-Timetable g lane_id w after d k t =
      let p = plan env g lane_id in
      let all : All (Placed env g.slot_duration w.db.schedules)
          (w.db.slots ++ ahead env g lane_id k.row w) =
        All-append (Placed env g.slot_duration w.db.schedules) _ _ t.placed (
          All-imp _ _
            (λ s i. record {
              row = k.row;
              found =
                  subst (λ n. first (λ x. x.lane_id == n) w.db.schedules ≡ some k.row) (sym i.lane)
                    k.found;
              closes = i.closes;
              length = i.length;
              turn = i.turn;
              start = i.start;
            })
            _
            (lookahead_slots-InTurn p (schedule_of env k.row) g.lookahead (env.now (suc w.ticks))
              (suc (suc w.ticks)) d)) in
      subst (Timetable env g.slot_duration) (sym k.added) (record { placed = all })

  pub generate_lane-Timetable :
      (g : GeneratorConfig) (lane_id : ℕ)
      → 0 < g.slot_duration
      → Keeps (Timetable env g.slot_duration) (generate_lane env g lane_id)
  generate_lane-Timetable g lane_id d = record {
    at = λ w t. elim (generate_lane-Turned g lane_id w) [
      | inl e ↦ subst (Timetable env g.slot_duration) (sym e) t
      | inr k ↦ Turned-Timetable g lane_id w _ d k t
    ];
  }
