-- ===== src/Examples/Access.antt =====
-- A request without a token, and a header with one.
use strike_reserve.Base.{refl, ◌≡◌, [], ◌∷◌, ◌++◌, Option, some}
use strike_reserve.Models.{Claims}
use strike_reserve.Models.Hms.{Text}
use strike_reserve.Handler.Middleware.{bearer, jwt_middleware, split_space}
use strike_reserve.Handler.Middleware.Bearer.{jwt_middleware_passed}
use strike_reserve.Handler.Context.{HttpRequest, with_fields, request_fields, chain}
use strike_reserve.Handler.Context.Chain.{Handled, chain-Handled}
use strike_reserve.Server.{route, create_booking}
use strike_reserve.Server.Guards.{access, turned_away, route-turned_away}
use strike_reserve.Examples.{world}
use strike_reserve.Examples.Server.{server, claims, token}

-- An administrator may not book.
route-turned_away_example :
    route server (some claims) (create_booking 7) (world []) ≡ (some 403, world [])
unfolding access turned_away
route-turned_away_example =
    route-turned_away server (some claims) (create_booking 7) 403 (world []) refl

abbrev validate : Text → Option Claims
validate text = some claims

jwt_middleware_passed_example :
    (t : Text) × (token ≡ bearer ++ b' ' ∷ t) × (validate t ≡ some claims)
unfolding jwt_middleware split_space
jwt_middleware_passed_example = jwt_middleware_passed validate token claims refl

abbrev with_token : HttpRequest
with_token = record {
  request_id = "";
  response_id = "17";
  method = "GET";
  path = "/bookings/my";
  authorization = token;
}

chain-Handled_example :
    Handled
      (with_fields [] (request_fields with_token))
      (jwt_middleware validate token)
      (chain [] validate with_token)
chain-Handled_example = chain-Handled [] validate with_token
