-- ===== src/Repository/Schedules/Saving.antt =====
-- `ScheduleRepository.Create` of app/internal/repository/schedule.go: the row that it adds.
use strike_reserve.Base.{
  ℕ, ◌≡◌, refl, sym, ap, ◌∙◌, inl, inr, false, List, [], ◌∷◌, ◌++◌, some, any, Option-cases, arith,
  ◌==◌,
}
use strike_reserve.Models.{Schedule}
use strike_reserve.Models.Hms.{Text, value}
use strike_reserve.Db.{
  Db, ScheduleRow, Effect, done, violates, no_row, schedules_clash, insert_schedule,
}
use strike_reserve.World.{Env, World}
use strike_reserve.Exec.{ok, ◌>>=◌, query, at_tick, now}
use strike_reserve.Exec.Runs.{>>=-ok, query-ok}
use strike_reserve.Repository.Sql.{returning}
use strike_reserve.Repository.Lanes.{stamp}
use strike_reserve.Repository.Schedules.{create, insert_statement}

no_clash-lane :
    (r : ScheduleRow) (rows : List ScheduleRow)
    → any (λ x. schedules_clash x r) rows ≡ false
    → any (λ x. x.lane_id == r.lane_id) rows ≡ false
no_clash-lane r [] h = refl
no_clash-lane r (x ∷ rows) h = ground (arith, no_clash-lane r rows)

insert_schedule-done :
    (r : ScheduleRow) (db db' : Db)
    → insert_schedule r db ≡ done tt db'
    → (any (λ x. x.lane_id == r.lane_id) db.schedules ≡ false)
      × (db' ≡ record db { schedules = db.schedules ++ r ∷ [] })
unfolding insert_schedule
insert_schedule-done r db db' h = ground (arith, no_clash-lane r db.schedules)

returning-done :
    {A : Type 0} (a b : A) (e : Effect (Unit {0})) (db : Db)
    → returning a e ≡ done b db
    → (e ≡ done tt db) × (a ≡ b)
returning-done a b (done u d) db h = ground arith
returning-done a b (violates v) db h = absurd (cc h)
returning-done a b no_row db h = absurd (cc h)

module _ {C : Type 0} (env : Env C) where
  -- The server reads the text as a time of day.
  abbrev pub Reads : Text → ℕ → Type 0
  Reads t n = (text : Text) × (value t ≡ some text) × (env.time_in text ≡ some n)

  -- The row of a schedule.
  pub record RowOf (s : Schedule) (row : ScheduleRow) : Type 0 where
    pub lane : row.lane_id ≡ s.lane_id
    pub days : row.days_of_week ≡ s.days_of_week
    pub opens : Reads s.start_time row.start_time
    pub closes : Reads s.end_time row.end_time

  insert_statement-done :
      (s : Schedule) (db db' : Db)
      → insert_statement env s db ≡ done tt db'
      → (row : ScheduleRow) × RowOf s row
        × (any (λ r. r.lane_id == s.lane_id) db.schedules ≡ false)
        × (db' ≡ record db { schedules = db.schedules ++ row ∷ [] })
  unfolding insert_statement
  insert_statement-done s db db' h = elim (Option-cases (value s.start_time)) [
    | inl e ↦ absurd (cc (rw e at h))
    | inr (a, e) ↦ elim (Option-cases (env.time_in a)) [
      | inl f ↦ absurd (ground arith)
      | inr (from, f) ↦ elim (Option-cases (value s.end_time)) [
        | inl g ↦ absurd (ground arith)
        | inr (b, g) ↦ elim (Option-cases (env.time_in b)) [
          | inl k ↦ absurd (ground arith)
          | inr (to, k) ↦
              let row : ScheduleRow = record {
                id = s.id;
                lane_id = s.lane_id;
                days_of_week = s.days_of_week;
                start_time = from;
                end_time = to;
                created_at = s.created_at;
              } in
              let stored : insert_schedule row db ≡ done tt db' = ground arith in
              let (fresh, after) = insert_schedule-done row db db' stored in
              (
                row,
                record { lane = refl; days = refl; opens = (a, e, f); closes = (b, g, k) },
                fresh,
                after,
              )
        ]
      ]
    ]
  ]

  stamp-kept :
      (created_at at : ℕ) (w w' : World C)
      → stamp env created_at w ≡ (ok at, w')
      → (w'.db ≡ w.db) × (w'.cache ≡ w.cache)
  unfolding now
  stamp-kept created_at at w w' h = ground arith

  pub saved :
      (s t : Schedule) (w w' : World C)
      → create env s w ≡ (ok t, w')
      → (row : ScheduleRow) × RowOf s row
        × (any (λ r. r.lane_id == s.lane_id) w.db.schedules ≡ false)
        × (w'.db ≡ record w.db { schedules = w.db.schedules ++ row ∷ [] })
        × (w'.cache ≡ w.cache)
  unfolding create ◌>>=◌ at_tick query
  saved s t w w' h =
      let (at, v, p, q) = >>=-ok (stamp env s.created_at) _ w w' t h in
      let same : (v.db ≡ w.db) × (v.cache ≡ w.cache) = stamp-kept s.created_at at w v p in
      let sent : Schedule = record s { id = env.uuid v.ticks; created_at = at } in
      let (e, c) = query-ok env (λ db. returning sent (insert_statement env sent db)) v w' t q in
      let (row, r, fresh, after) =
        insert_statement-done sent v.db w'.db (returning-done sent t _ w'.db e).0 in
      (
        row,
        record { lane = r.lane; days = r.days; opens = r.opens; closes = r.closes },
        ap (λ (x : Db). any (λ y. y.lane_id == s.lane_id) x.schedules) (sym same.0) ∙ fresh,
        after ∙ ap (λ (x : Db). record x { schedules = x.schedules ++ row ∷ [] }) same.0,
        c ∙ same.1,
      )
