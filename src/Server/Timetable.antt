-- ===== src/Server/Timetable.antt =====
-- That no two slots of a lane overlap, whatever app/internal is asked to do and in whatever order.
use strike_reserve.Base.{
  ℕ, ◌+◌, ◌*◌, ◌≤◌, ◌<◌, ◌≡◌, ◌≢◌, ◌⊎◌, inl, inr, refl, sym, ap, subst, ◌∙◌, Bool, false, ◌&&◌,
  List, [], ◌∷◌, some_inj, first, any, All, Apart, arith, ◌==◌, ==_iff, ltb, Bool-cases,
}
use strike_reserve.Clock.{midnight, at_time, day_ns, day_of, hour_ns, minute_ns}
use strike_reserve.Models.{Slot}
use strike_reserve.Db.{ScheduleRow, slots_clash}
use strike_reserve.World.{Env, World}
use strike_reserve.Exec.{IsTransactional}
use strike_reserve.Exec.Keeps.{Keeps}
use strike_reserve.Service.Generation.Days.{time_of_day}
use strike_reserve.Service.Timetable.{Placed, Timetable, Timetable-Closed, opening, closing}
use strike_reserve.Service.Timetable.Filling.{
  Legible, ReadsBack, create_schedule-Timetable, generate_lane-Timetable,
}
use strike_reserve.Service.Generator.{generate_lane}
use strike_reserve.Repository.Schedules.{scanned}
use strike_reserve.Server.{Server, Event, history}
use strike_reserve.Server.Keeping.{Kept, Admits, history-Keeps}

-- Two slots of one lane have an instant in common.
abbrev pub overlaps : Slot → Slot → Bool
overlaps r s = r.lane_id == s.lane_id && ltb r.start_time s.end_time && ltb s.start_time r.end_time

earlier_turn : (k j d : ℕ) → k < j → k * d + d ≤ j * d
earlier_turn k j d h = grind arith

-- Slots of the length d that stand in turn within the same hours, and do not start together.
in_turn-apart :
    (o c d k j r s : ℕ)
    → c < day_ns
    → r ≡ midnight r + o + k * d
    → s ≡ midnight s + o + j * d
    → r + d ≤ midnight r + c
    → s + d ≤ midnight s + c
    → r ≢ s
    → (r + d ≤ s) ⊎ (s + d ≤ r)
in_turn-apart o c d k j r s h er es cr cs n = elim (order r s) [
  | inl (inl days) ↦ inl (omega (arith, er, es, cr, cs, days))
  | inl (inr days) ↦ inr (omega (arith, er, es, cr, cs, days))
  | inr same ↦ elim (order_of k j) [
    | inl (inl less) ↦ inl (omega (arith, er, es, same, earlier_turn k j d less))
    | inl (inr less) ↦ inr (omega (arith, er, es, same, earlier_turn j k d less))
    | inr eq ↦ absurd (n (omega (arith, er, es, same, ap (λ (t : ℕ). t * d) eq)))
  ]
]
  where
    order_of : (a b : ℕ) → ((a < b) ⊎ (b < a)) ⊎ (a ≡ b)
    order_of a b = elim (Bool-cases (ltb a b)) [
      | inl l ↦ inl (inl (ground arith))
      | inr l ↦ elim (Bool-cases (ltb b a)) [
        | inl m ↦ inl (inr (ground arith))
        | inr m ↦ inr (ground arith)
      ]
    ]

    order : (a b : ℕ) → ((day_of a < day_of b) ⊎ (day_of b < day_of a)) ⊎ (day_of a ≡ day_of b)
    order a b = order_of (day_of a) (day_of b)

module _ {C : Type 0} (env : Env C) (d : ℕ) where
  row_of_lane :
      (schedules : List ScheduleRow) (r s : Slot)
      → (p : Placed env d schedules r) (q : Placed env d schedules s) → r.lane_id ≡ s.lane_id
      → p.row ≡ q.row
  row_of_lane schedules r s p q e =
      some_inj (sym p.found ∙ ap (λ n. first (λ x. x.lane_id == n) schedules) e ∙ q.found)

  Placed-disjoint :
      (schedules : List ScheduleRow) (r s : Slot)
      → Placed env d schedules r
      → Placed env d schedules s
      → r.lane_id ≡ s.lane_id
      → r.start_time ≢ s.start_time
      → (r.end_time ≤ s.start_time) ⊎ (s.end_time ≤ r.start_time)
  Placed-disjoint schedules r s p q e n =
      let row = row_of_lane schedules r s p q e in
      let open_at = opening env p.row in
      let close_at = closing env p.row in
      let hours = time_of_day (scanned env (env.time_out p.row.end_time)) in
      let same_open : opening env q.row ≡ open_at = ap (opening env) (sym row) in
      let same_close : closing env q.row ≡ close_at = ap (closing env) (sym row) in
      let start =
        subst (λ x. s.start_time ≡ at_time s.start_time x.hour x.minute + q.turn * d) same_open
          q.start in
      let closes =
        subst (λ x. s.end_time ≤ at_time s.start_time x.hour x.minute) same_close q.closes in
      elim (in_turn-apart (open_at.hour * hour_ns + open_at.minute * minute_ns)
        (close_at.hour * hour_ns + close_at.minute * minute_ns) d p.turn q.turn r.start_time
        s.start_time (omega (arith, hours.0, hours.1)) (omega (arith, p.start))
        (omega (arith, start)) (omega (arith, p.closes, p.length)) (omega (arith, closes, q.length))
        n) [ inl l ↦ inl (omega (arith, l, p.length)) | inr l ↦ inr (omega (arith, l, q.length)) ]

  no_overlap :
      (schedules : List ScheduleRow) (r s : Slot)
      → Placed env d schedules r
      → Placed env d schedules s
      → slots_clash r s ≡ false
      → overlaps r s ≡ false
  no_overlap schedules r s p q h = elim (Bool-cases (r.lane_id == s.lane_id)) [
    | inr k ↦ rw k refl
    | inl k ↦
        let lane = (==_iff r.lane_id s.lane_id).0 k in
        let apart =
          Placed-disjoint schedules r s p q lane (λ e. absurd (ground (arith, e, lane, h))) in
        ground (arith, apart)
  ]

  no_overlaps :
      (schedules : List ScheduleRow) (r : Slot) (slots : List Slot)
      → Placed env d schedules r
      → All (Placed env d schedules) slots
      → any (slots_clash r) slots ≡ false
      → any (overlaps r) slots ≡ false
  no_overlaps schedules r [] p q h = refl
  no_overlaps schedules r (s ∷ slots) p q h =
      ground (arith, no_overlap schedules r s p q.0, no_overlaps schedules r slots p q.1)

  pub Placed-Apart :
      (schedules : List ScheduleRow) (slots : List Slot)
      → All (Placed env d schedules) slots
      → Apart slots_clash slots
      → Apart overlaps slots
  Placed-Apart schedules [] p a = tt
  Placed-Apart schedules (s ∷ slots) p a =
      (no_overlaps schedules s slots p.0 p.1 a.0, Placed-Apart schedules slots p.1 a.1)

module _ {C : Type 0} (s : Server C) (t : IsTransactional C s.tx) (back : ReadsBack s.env) where
  Timetable-Kept :
      0 < s.lanes.slot_duration
      → s.generator.slot_duration ≡ s.lanes.slot_duration
      → Kept s Legible (Timetable s.env s.lanes.slot_duration)
  Timetable-Kept d e = record {
    closed = Timetable-Closed s.env s.lanes.slot_duration;
    schedule = λ sch l. create_schedule-Timetable s.env back s.tx t s.lanes sch d l;
    turn = λ lane_id.
        subst (λ n. Keeps (Timetable s.env n) (generate_lane s.env s.generator lane_id)) e
          (generate_lane-Timetable s.env s.generator lane_id (rw e d));
  }

  pub history-Timetable :
      (events : List Event) (w : World C)
      → 0 < s.lanes.slot_duration
      → s.generator.slot_duration ≡ s.lanes.slot_duration
      → All (Admits Legible) events
      → Timetable s.env s.lanes.slot_duration w.db
      → Timetable s.env s.lanes.slot_duration (history s events w).db
  history-Timetable events w d e a k = history-Keeps s t (Timetable-Kept d e) events w a k
