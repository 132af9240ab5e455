-- ===== src/Service/Lanes/Scheduling.antt =====
-- What `LaneService.CreateSchedule` of app/internal/service/lane.go does when it succeeds, and when it
-- fails.
use strike_reserve.Base.{
  ℕ, suc, ◌≡◌, ◌≢◌, sym, ap, subst, ◌∙◌, true, false, List, [], ◌∷◌, ◌++◌, any, any-first, arith,
  ◌==◌,
}
use strike_reserve.Errors.{Error}
use strike_reserve.Models.{Lane, Schedule, Slot}
use strike_reserve.Db.{Db, ScheduleRow, has_lane}
use strike_reserve.World.{Env, World}
use strike_reserve.Exec.{
  Exec, ◌>>◌, pure, Result, ok, err, TxManager, IsTransactional, ◌>>=◌, on_error, attempt, query,
  now,
}
use strike_reserve.Exec.Runs.{>>=-ok}
use strike_reserve.Exec.Tx.{run-ok, run-err}
use strike_reserve.Repository.Sql.{select_one}
use strike_reserve.Repository.Lanes
use strike_reserve.Repository.Lanes.{stamp}
use strike_reserve.Repository.Schedules
use strike_reserve.Repository.Schedules.{insert_statement}
use strike_reserve.Repository.Schedules.Saving.{RowOf, saved}
use strike_reserve.Repository.Slots.{create_slots}
use strike_reserve.Repository.Slots.Batch.{with_slots, create_slots-ok}
use strike_reserve.Service.Generation.{schedule_slots}
use strike_reserve.Service.Lanes.{
  LaneConfig, or_lane_not_found, generate, none_exists, some_slots, plan, create_schedule_in_tx,
  create_schedule,
}

module _ {C : Type 0} (env : Env C) where
  lane_found :
      (id : ℕ) (w w' : World C) (lane : Lane)
      → on_error or_lane_not_found (Lanes.get env id) w ≡ (ok lane, w')
      → (has_lane id w.db ≡ true) × (w'.db ≡ w.db) × (w'.cache ≡ w.cache)
  unfolding on_error query Lanes.get select_one
  lane_found id w w' lane h = ground (arith, any-first (λ (l : Lane). l.id == id) w.db.lanes lane)

  no_schedule :
      (id : ℕ) (w w' : World C) (r : Result Schedule)
      → attempt (Schedules.get_by_lane_id env id) w ≡ (ok r, w')
      → (w'.db ≡ w.db) × (w'.cache ≡ w.cache)
  unfolding attempt query Schedules.get_by_lane_id
  no_schedule id w w' r h = ground arith

  -- The slots that are made when the clock is read at a tick.
  abbrev pub slots_at : LaneConfig → Schedule → ℕ → List Slot
  slots_at c sch k =
      schedule_slots (plan env c sch.lane_id) sch c.slot_generation_days (env.now k) (suc k)

  -- A schedule that was made: its lane exists and had none, the row holds its days and hours, and the
  -- only other change is its slots, of which there is at least one.
  pub record Scheduled (c : LaneConfig) (sch : Schedule) (before after : Db) : Type 0 where
    pub row : ScheduleRow
    pub at : ℕ
    pub lane : has_lane sch.lane_id before ≡ true
    pub fresh : any (λ r. r.lane_id == sch.lane_id) before.schedules ≡ false
    pub kept : RowOf env sch row
    pub some_slot : slots_at c sch at ≢ []
    pub added :
        after
        ≡ with_slots
            (record before { schedules = before.schedules ++ row ∷ [] })
            (slots_at c sch at)

  none_exists-ok : (r : Result Schedule) (w w' : World C) → none_exists r w ≡ (ok tt, w') → w' ≡ w
  none_exists-ok (ok s) w w' h = absurd (cc h)
  none_exists-ok (err e) w w' h = ground arith

  some_slots-ok :
      (slots : List Slot) (w w' : World C)
      → some_slots slots w ≡ (ok tt, w')
      → (slots ≢ []) × (w' ≡ w)
  some_slots-ok [] w w' h = absurd (cc h)
  some_slots-ok (s ∷ slots) w w' h = ((λ e. cc e), ground arith)

  -- The end of the transaction: the slots are saved, and the schedule is returned.
  abbrev save_slots : Schedule → List Slot → Exec C Schedule
  save_slots t slots = some_slots slots >> (create_slots env slots >> pure t)

  save_slots-ok :
      (t u : Schedule) (slots : List Slot) (w w' : World C)
      → save_slots t slots w ≡ (ok u, w')
      → (slots ≢ []) × (w'.db ≡ with_slots w.db slots) × (w'.cache ≡ w.cache)
  save_slots-ok t u slots w w' h =
      let (a, v, p, q) = >>=-ok (some_slots slots) _ w w' u h in
      let (b, v', p', q') = >>=-ok (create_slots env slots) _ v w' u q in
      let (some_slot, e) = some_slots-ok slots w v p in
      let (d, c) = create_slots-ok env slots v v' p' in
      let same : v' ≡ w' = ap (λ (x : Result Schedule × World C). x.1) q' in
      (
        some_slot,
        ap (λ (x : World C). x.db) (sym same) ∙ d ∙ ap (λ (x : World C). with_slots x.db slots) e,
        ap (λ (x : World C). x.cache) (sym same) ∙ c ∙ ap (λ (x : World C). x.cache) e,
      )

  abbrev make_slots : LaneConfig → Schedule → Schedule → Exec C Schedule
  make_slots c sch t = now env >>= λ at.
      generate (schedule_slots (plan env c sch.lane_id) sch c.slot_generation_days at)
      >>= save_slots t

  make_slots-ok :
      (c : LaneConfig) (sch t u : Schedule) (w w' : World C)
      → make_slots c sch t w ≡ (ok u, w')
      → (slots_at c sch w.ticks ≢ [])
        × (w'.db ≡ with_slots w.db (slots_at c sch w.ticks))
        × (w'.cache ≡ w.cache)
  unfolding ◌>>=◌ now generate
  make_slots-ok c sch t u w w' h = save_slots-ok t u (slots_at c sch w.ticks) _ w' h

  -- From the new row on.
  save_schedule-ok :
      (c : LaneConfig) (sch u : Schedule) (w w' : World C)
      → has_lane sch.lane_id w.db ≡ true
      → (Schedules.create env sch >>= make_slots c sch) w ≡ (ok u, w')
      → Scheduled c sch w.db w'.db × (w'.cache ≡ w.cache)
  save_schedule-ok c sch u w w' l h =
      let (t, v, p, q) = >>=-ok (Schedules.create env sch) _ w w' u h in
      let (row, r, fresh, after, cache) = saved env sch t w v p in
      let (some_slot, d, cache') = make_slots-ok c sch t u v w' q in
      (
        record {
          row = row;
          at = v.ticks;
          lane = l;
          fresh = fresh;
          kept = r;
          some_slot = some_slot;
          added = d ∙ ap (λ x. with_slots x (slots_at c sch v.ticks)) after;
        },
        cache' ∙ cache,
      )

  check_schedule-ok :
      (c : LaneConfig) (sch u : Schedule) (r : Result Schedule) (w w' : World C)
      → has_lane sch.lane_id w.db ≡ true
      → (none_exists r >> (Schedules.create env sch >>= make_slots c sch)) w ≡ (ok u, w')
      → Scheduled c sch w.db w'.db × (w'.cache ≡ w.cache)
  check_schedule-ok c sch u r w w' l h =
      let (a, v, p, q) = >>=-ok (none_exists r) _ w w' u h in
      let run =
        subst (λ x. (Schedules.create env sch >>= make_slots c sch) x ≡ (ok u, w'))
          (none_exists-ok r w v p) q in
      save_schedule-ok c sch u w w' l run

  Scheduled-eq :
      (c : LaneConfig) (sch : Schedule) (w v w' : World C)
      → v.db ≡ w.db
      → v.cache ≡ w.cache
      → Scheduled c sch v.db w'.db × (w'.cache ≡ v.cache)
      → Scheduled c sch w.db w'.db × (w'.cache ≡ w.cache)
  Scheduled-eq c sch w v w' d e k = (subst (λ x. Scheduled c sch x w'.db) d k.0, k.1 ∙ e)

  read_schedule-ok :
      (c : LaneConfig) (sch u : Schedule) (w w' : World C)
      → has_lane sch.lane_id w.db ≡ true
      → (attempt (Schedules.get_by_lane_id env sch.lane_id) >>= λ r.
            none_exists r >> (Schedules.create env sch >>= make_slots c sch))
          w
        ≡ (ok u, w')
      → Scheduled c sch w.db w'.db × (w'.cache ≡ w.cache)
  read_schedule-ok c sch u w w' l h =
      let (r, v, p, q) = >>=-ok (attempt (Schedules.get_by_lane_id env sch.lane_id)) _ w w' u h in
      let (d, e) = no_schedule sch.lane_id w v r p in
      Scheduled-eq c sch w v w' d e
        (check_schedule-ok c sch u r v w' (ap (has_lane sch.lane_id) d ∙ l) q)

  in_tx-Scheduled :
      (c : LaneConfig) (sch u : Schedule) (w w' : World C)
      → create_schedule_in_tx env c sch w ≡ (ok u, w')
      → Scheduled c sch w.db w'.db × (w'.cache ≡ w.cache)
  unfolding create_schedule_in_tx
  in_tx-Scheduled c sch u w w' h =
      let (lane, v, p, q) =
        >>=-ok (on_error or_lane_not_found (Lanes.get env sch.lane_id)) _ w w' u h in
      let (l, d, e) = lane_found sch.lane_id w v lane p in
      Scheduled-eq c sch w v w' d e
        (read_schedule-ok c sch u v w' (ap (has_lane sch.lane_id) d ∙ l) q)

module _ {C : Type 0} (env : Env C) (tx : TxManager C) (t : IsTransactional C tx) where
  -- Whenever `CreateSchedule` succeeds, the lane existed and had no schedule, and the only changes to
  -- the tables are the schedule's row, with its days and with hours that the server reads in its
  -- texts, and at least one slot: all those that the loop over days makes. The cache is untouched.
  pub create_schedule_success :
      (c : LaneConfig) (sch u : Schedule) (w w' : World C)
      → create_schedule env tx c sch w ≡ (ok u, w')
      → Scheduled env c sch w.db w'.db × (w'.cache ≡ w.cache)
  unfolding create_schedule
  create_schedule_success c sch u w w' h =
      in_tx-Scheduled env c sch u w w' (run-ok tx t _ _ w w' u h)

  -- Whenever `CreateSchedule` fails, the tables are as they were.
  pub create_schedule_failure :
      (c : LaneConfig) (sch : Schedule) (w w' : World C) (e : Error)
      → create_schedule env tx c sch w ≡ (err e, w')
      → w'.db ≡ w.db
  unfolding create_schedule
  create_schedule_failure c sch w w' e h = (run-err tx t _ _ w w' e h).0
