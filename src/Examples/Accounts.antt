-- ===== src/Examples/Accounts.antt =====
-- Signing up and in, and the statuses of a booking and of a page.
use strike_reserve.World.{World}
use strike_reserve.Base.{arith, ◌≡◌, refl, true, [], ◌∷◌, none, some}
use strike_reserve.Base.Int.{negsuc}
use strike_reserve.Models.{Claims, User, UserRegister}
use strike_reserve.Exec.Tx.{atomic-IsTransactional, atomic-commits}
use strike_reserve.Exec.{◌>>=◌, now, query, new_id}
use strike_reserve.Service.Auth.{parsed}
use strike_reserve.Db.{insert_user}
use strike_reserve.Models.{role_valid}
use strike_reserve.Repository.Users.{create}
use strike_reserve.Service.Users
use strike_reserve.Service.Users.{hash_password}
use strike_reserve.Handler.Auth.{post_register}
use strike_reserve.Handler.Bookings.{get_bookings_list}
use strike_reserve.Service.Bookings.{create_in_tx}
use strike_reserve.Service.Bookings.Verdict.{verdict}
use strike_reserve.Server.{Server, route, register, create_booking}
use strike_reserve.Server.Accounts.{sign_up, SignsUp, register-SignsUp, new_user}
use strike_reserve.Server.SignIn.{SignedIn, register-SignedIn, claims_at}
use strike_reserve.Server.Paging.{list_bookings_reply, list_reply}
use strike_reserve.Server.Statuses.{create_booking_status, booking_status}
use strike_reserve.Examples.{Held, world, booking}
use strike_reserve.Examples.Server.{server, claims}

abbrev bob : UserRegister
bob = record { email = "bob@test.com"; password = "secret"; role = "admin" }

abbrev alice_again : UserRegister
alice_again = record bob { email = "alice@test.com" }

register-SignsUp_example :
    SignsUp
      (sign_up server alice_again (world []))
      (route server none (register alice_again) (world []))
      (world []).db
register-SignsUp_example = register-SignsUp server none alice_again (world []) refl refl

abbrev bob_row : User
bob_row = new_user server bob "hash" (world [])

-- The token of the login is one letter, and that of no one else.
abbrev bob_claims : Claims
bob_claims = claims_at server bob_row 5

abbrev bob_server : Server Held
bob_server = record server {
  jwt = record {
    sign = λ secret claims. some (b't' ∷ []);
    parse = λ key token. parsed true bob_claims;
  };
}

register-SignedIn_example :
    SignedIn bob_server
      (record { email = bob.email; password = bob.password })
      bob_row
      (route bob_server none (register bob) (world [])).1
unfolding sign_up route post_register Users.register hash_password create insert_user new_id query
    ◌>>=◌ now role_valid
register-SignedIn_example =
    register-SignedIn bob_server (record { matches = λ n cost password hash e. refl }) none bob
      bob_row (world []) refl refl refl refl refl
      (record { token = b't' ∷ []; signed = refl; parses = refl; solid = refl })

create_booking_status_example :
    (route server
      (some (record claims { role = "user" }))
      (create_booking 7)
      (world (booking ∷ []))).0
    ≡ some (booking_status (verdict 1000 7 (world (booking ∷ [])).db))
create_booking_status_example =
    create_booking_status server atomic-IsTransactional (record claims { role = "user" }) 1000 7
      (world (booking ∷ [])) refl refl
      (record { first_statement = refl; second_statement = refl; new = refl })
      (λ v x. atomic-commits (create_in_tx server.env 1000 7) (world (booking ∷ [])) v x)

abbrev one_booking : World Held
one_booking = world (booking ∷ [])

list_bookings_reply_example :
    (get_bookings_list server.env server.pages (some claims) (some (negsuc 0)) none one_booking).0
    ≡ list_reply server.pages (some (negsuc 0)) none (booking ∷ [])
list_bookings_reply_example =
    list_bookings_reply server claims (some (negsuc 0)) none one_booking refl refl refl
      (ground arith) (ground arith) (ground arith) tt
