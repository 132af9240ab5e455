-- ===== src/Server/Statuses.antt =====
-- The statuses that clients of app/internal/handler/handler.go see, by what the tables hold.
use strike_reserve.Base.{ℕ, String, ◌≡◌, refl, some, str_eq, true}
use strike_reserve.Models.{Claims, Booking, Slot, role_user}
use strike_reserve.World.{World}
use strike_reserve.Exec.{Result, ok, IsTransactional}
use strike_reserve.Service.Bookings.{create_in_tx}
use strike_reserve.Service.Bookings.Verdict.{
  Verdict, verdict, Answers, Calm, create-Answers, no_such_slot, taken, unknown_user, free,
}
use strike_reserve.Handler.Bookings.{created, post_bookings_create}
use strike_reserve.Server.{Server, route, create_booking, status}

-- A user who has been deleted is an internal error.
unfoldable pub booking_status : Verdict → ℕ
booking_status no_such_slot = 404
booking_status taken = 409
booking_status unknown_user = 500
booking_status free = 201

status-created :
    (detail : String) (v : Verdict) (r : Result Booking)
    → Answers detail v r
    → status (created r) ≡ some (booking_status v)
unfolding booking_status
status-created detail no_such_slot r h = rw h refl
status-created detail taken r h = rw h refl
status-created detail unknown_user r h = rw h refl
status-created detail free r (b, h) = rw h refl

module _ {C : Type 0} (s : Server C) (t : IsTransactional C s.tx) where
  -- A user's request for a slot is answered 404 where there is no such slot, 409 where an active
  -- booking holds it, 500 where the user of the token is not in the table, and 201 otherwise, also
  -- for a slot in the past; if the two statements meet no failure, the identifier drawn is new and the
  -- commit succeeds.
  pub create_booking_status :
      (user : Claims) (user_id slot_id : ℕ) (w : World C)
      → str_eq user.role role_user ≡ true
      → s.parse_id user.user_id ≡ some user_id
      → Calm s.env w
      → ((v : World C) (x : Booking × Slot)
          → create_in_tx s.env user_id slot_id w ≡ (ok x, v)
          → s.tx.run (Booking × Slot) (create_in_tx s.env user_id slot_id) w ≡ (ok x, v))
      → (route s (some user) (create_booking slot_id) w).0
        ≡ some (booking_status (verdict user_id slot_id w.db))
  unfolding route post_bookings_create
  create_booking_status user user_id slot_id w role id calm commits =
      rw (role, id)
        (status-created _ _ _ (create-Answers s.env s.tx t user_id slot_id w calm commits))
