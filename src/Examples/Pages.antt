-- ===== src/Examples/Pages.antt =====
-- Two pages of two bookings.
use mathlib.Core.List.{Permᴰ}
use strike_reserve.Base.{List, refl, ◌≡◌, [], ◌∷◌, arith}
use strike_reserve.Models.{cancelled}
use strike_reserve.Models.{Booking}
use strike_reserve.World.{World}
use strike_reserve.Exec.{ok}
use strike_reserve.Repository.Bookings.{by_creation}
use strike_reserve.Repository.Sql.Order.{Sorted}
use strike_reserve.Repository.Bookings.Pages.{read_pages, read_pages_all}
use strike_reserve.Examples.{Held, env, world, booking}

abbrev three : World Held
three = world (
    booking
    ∷ record booking { id = 4; status = cancelled }
    ∷ record booking { id = 6; status = cancelled }
    ∷ [])

read_pages_all_example :
    (rows : List Booking) × ((read_pages env (λ n. refl) 2 2 three).0 ≡ ok rows)
    × Permᴰ rows three.db.bookings
    × Sorted by_creation rows
read_pages_all_example =
    read_pages_all env (λ n. refl) 2 2 three (ground arith) (ground arith) (ground arith)
