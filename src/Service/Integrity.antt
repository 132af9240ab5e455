-- ===== src/Service/Integrity.antt =====
-- Calls of app/internal/service/booking.go keep the integrity of the tables.
use strike_reserve.Base.{ℕ}
use strike_reserve.Db.Intact.{Intact}
use strike_reserve.World.{Env}
use strike_reserve.Exec.{TxManager, IsTransactional}
use strike_reserve.Exec.Keeps.{Keeps}
use strike_reserve.Repository.Integrity.{Intact-Closed}
use strike_reserve.Service.Keeping.{create-Keeps, cancel-Keeps}
use strike_reserve.Service.Bookings

module _ {C : Type 0} (env : Env C) (tx : TxManager C) (t : IsTransactional C tx) where
  pub create-Intact : (user_id slot_id : ℕ) → Keeps Intact (Bookings.create env tx user_id slot_id)
  create-Intact = create-Keeps env Intact-Closed tx t

  pub cancel-Intact : (id user_id : ℕ) → Keeps Intact (Bookings.cancel env tx id user_id)
  cancel-Intact = cancel-Keeps env Intact-Closed tx t
