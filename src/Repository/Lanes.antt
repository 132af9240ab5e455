-- ===== src/Repository/Lanes.antt =====
-- app/internal/repository/lanes.go
use strike_reserve.Base.{ℕ, List, ◌==◌, if◌then◌else◌}
use strike_reserve.Models.{Lane}
use strike_reserve.Db.{done, insert_lane}
use strike_reserve.World.{Env}
use strike_reserve.Exec.{Exec, at_tick, ◌>>=◌, pure, query, now}
use strike_reserve.Repository.Sql.{select_one, returning, order_by}

module _ {C : Type 0} (env : Env C) where
  abbrev pub stamp : ℕ → Exec C ℕ
  stamp created_at = if created_at == 0 then now env else pure created_at

  -- The id comes back from the server; the lane's own is not sent.
  unfoldable pub create : Lane → Exec C Lane
  create lane = do
    at ← stamp lane.created_at
    at_tick λ n.
        let row : Lane = record lane { id = env.uuid n; created_at = at } in
        query env (λ db. returning row (insert_lane row db))

  unfoldable pub get_all : Exec C (List Lane)
  get_all = query env (λ db. done (order_by (λ l m. env.name_le l.name m.name) db.lanes) db)

  unfoldable pub get : ℕ → Exec C Lane
  unfolding select_one
  get id = query env (λ db. select_one (λ l. l.id == id) db.lanes db)
