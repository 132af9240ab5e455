-- ===== src/Handler/Context.antt =====
-- What the middlewares put into the request's context and what handlers take out of it:
-- app/internal/handler/middlewares.go and utils.go, app/pkg/logger/logger.go.
pub mod Chain
use strike_reserve.Base.{
  String, Bool, true, false, List, [], ◌∷◌, ◌++◌, Option, none, some, str_eq, if◌then◌else◌,
}
use strike_reserve.Models.{Claims}
use strike_reserve.Models.Hms.{Text}
use strike_reserve.Handler.Middleware.{Gate, next, refuse, jwt_middleware}

-- zap.String
pub record Field : Type 0 where
  pub key : String
  pub value : String

-- A logger is the fields that it adds to each line.
abbrev pub Logger : Type 0
Logger = List Field

-- context.WithValue at UserKey and at ctxLoggerKey
pub data Value : Type 0 where
  user_info : Claims → Value
  logger : Logger → Value

-- The latest value first.
abbrev pub Context : Type 0
Context = List Value

-- ctx.Value(UserKey).(*models.Claims)
unfoldable pub get_user : Context → Option Claims
get_user [] = none
get_user (user_info claims ∷ ctx) = some claims
get_user (logger l ∷ ctx) = get_user ctx

-- FromContext; the global logger adds no field.
unfoldable pub from_context : Context → Logger
from_context [] = []
from_context (user_info claims ∷ ctx) = from_context ctx
from_context (logger l ∷ ctx) = l

-- ToContext
unfoldable pub to_context : Logger → Context → Context
to_context l ctx = logger l ∷ ctx

-- What the middlewares read of a request; the identifier of the response is that of RequestID.
pub record HttpRequest : Type 0 where
  pub request_id : String
  pub response_id : String
  pub method : String
  pub path : String
  pub authorization : Text

-- With(fields...)
abbrev pub with_fields : Logger → List Field → Logger
with_fields l fields = l ++ fields

unfoldable pub request_fields : HttpRequest → List Field
request_fields r =
    record {
      key = "request_id";
      value = if str_eq r.request_id "" then r.response_id else r.request_id;
    }
    ∷ record { key = "method"; value = r.method }
    ∷ record { key = "path"; value = r.path }
    ∷ []

-- LoggerMiddleware: the context with which it goes on.
unfoldable pub logger_middleware : Logger → HttpRequest → Context → Context
unfolding to_context request_fields
logger_middleware base r ctx = to_context (with_fields base (request_fields r)) ctx

-- JWTMiddleware: the context with which it goes on; `none` where it answers 401 itself.
abbrev pub admitted : Gate → Context → Option Context
admitted (refuse r) ctx = none
admitted (next none) ctx = some ctx
admitted (next (some claims)) ctx = some (user_info claims ∷ ctx)

unfoldable pub jwt_context : (Text → Option Claims) → HttpRequest → Context → Option Context
unfolding jwt_middleware
jwt_context validate r ctx = admitted (jwt_middleware validate r.authorization) ctx

-- r.Use, in the order of NewApp
unfoldable pub chain : Logger → (Text → Option Claims) → HttpRequest → Option Context
unfolding logger_middleware jwt_context
chain base validate r = jwt_context validate r (logger_middleware base r [])

-- StrictLoggerMiddleware: the logger goes into a context that is not that of the request it goes on
-- with.
unfoldable pub strict_logger_middleware : Logger → String → HttpRequest → Context → Context
unfolding to_context
strict_logger_middleware base operation r ctx =
    let ctx' =
      to_context
        (with_fields base (
          record { key = "request_id"; value = r.request_id }
          ∷ record { key = "method"; value = r.method }
          ∷ record { key = "path"; value = r.path }
          ∷ record { key = "operation"; value = operation }
          ∷ []))
        ctx in
    ctx
