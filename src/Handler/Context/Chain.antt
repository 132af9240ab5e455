-- ===== src/Handler/Context/Chain.antt =====
-- What a handler of app/internal/handler finds in its context behind the middlewares of NewApp.
use strike_reserve.Base.{◌≡◌, refl, [], Option, none, some}
use strike_reserve.Models.{Claims}
use strike_reserve.Models.Hms.{Text}
use strike_reserve.Handler.Middleware.{Gate, next, refuse, jwt_middleware}
use strike_reserve.Handler.Context.{
  Logger, Context, HttpRequest, get_user, from_context, chain, request_fields, with_fields,
  admitted, logger_middleware, jwt_context, to_context,
}

-- By what the JWT middleware makes of the header.
abbrev pub Handled : Logger → Gate → Option Context → Type 0
Handled l (refuse r) o = o ≡ none
Handled l (next user) o =
    (ctx : Context) × (o ≡ some ctx) × (get_user ctx ≡ user) × (from_context ctx ≡ l)

Handled-admitted : (l : Logger) (g : Gate) → Handled l g (admitted g (to_context l []))
unfolding get_user from_context to_context
Handled-admitted l (refuse r) = refl
Handled-admitted l (next none) = (to_context l [], refl, refl, refl)
Handled-admitted l (next (some claims)) = (_, refl, refl, refl)

-- Behind the logger and the JWT middleware, a request whose header is refused reaches no handler.
-- Any other reaches it with a context in which `getUser` finds the claims of the token, or nothing
-- for a request without one, and `FromContext` the logger with the request's fields.
pub chain-Handled :
    (base : Logger) (validate : Text → Option Claims) (r : HttpRequest)
    → Handled
        (with_fields base (request_fields r))
        (jwt_middleware validate r.authorization)
        (chain base validate r)
unfolding chain logger_middleware jwt_context
chain-Handled base validate r =
    Handled-admitted (with_fields base (request_fields r)) (jwt_middleware validate r.authorization)
