-- ===== src/Examples/Wire.antt =====
-- Requests as they reach the process, with numbers as strokes, and bodies that hold their value.
use Prim.Native.Char.{Char, code}
use strike_reserve.Base.{
  ℕ, zero, suc, ◌==◌, ◌≡◌, refl, ap, String, List, [], ◌∷◌, Option, none, some, if◌then◌else◌,
}
use strike_reserve.Base.Int.{ℤ, pos, negsuc}
use strike_reserve.Models.{UserRole, UserLogin, UserRegister, LaneCreate}
use strike_reserve.Handler.Lanes.{ScheduleBody}
use strike_reserve.Server.{route, history, serve, cancel_booking, list_bookings, create_lane}
use strike_reserve.Server.Routes.{get, post, Operation}
use strike_reserve.Server.Wire.{
  Echo, Bound, bound, refused, Arrival, http, tick, http_history, serve_http,
}
use strike_reserve.Server.Wire.Meaning.{events}
use strike_reserve.Server.Wire.Served.{http_history-history}
use strike_reserve.Server.Wire.Clients.{Client, IsRouter, Reads, matching, write}
use strike_reserve.Server.Wire.Written.{serve_http-write}
use strike_reserve.Examples.Caching.{strokes, stroke}
use strike_reserve.Server.Declared.{declared, Allowed}
use strike_reserve.Server.Conforms.{route-Allowed}
use strike_reserve.Examples.Server.{claims, server, token, start}

count : String → ℕ
count String.[] = 0
count (String.◌∷◌ c s) = suc (count s)

count-strokes : (n : ℕ) → count (strokes n) ≡ n
unfolding count strokes
count-strokes zero = refl
count-strokes (suc n) = ap suc (count-strokes n)

abbrev minus : Char
minus = "-"

abbrev int_text : ℤ → String
int_text (pos n) = String.◌∷◌ stroke (strokes n)
int_text (negsuc n) = String.◌∷◌ minus (strokes n)

abbrev integer : String → Option ℤ
unfolding count
integer String.[] = none
integer (String.◌∷◌ c s) = if code c == b'-' then some (negsuc (count s)) else some (pos (count s))

integer-int_text : (z : ℤ) → integer (int_text z) ≡ some z
unfolding integer
integer-int_text (pos n) = ap (λ k. some (pos k)) (count-strokes n)
integer-int_text (negsuc n) = ap (λ k. some (negsuc k)) (count-strokes n)

data Body : Type 0 where
  empty : Body
  slot : ℕ → Body
  role : UserRole → Body
  lane : LaneCreate → Body
  schedule : ScheduleBody → Body
  login : UserLogin → Body
  register : UserRegister → Body

abbrev slot_of : Body → Bound ℕ
slot_of (slot n) = bound n
slot_of _ = refused 400

abbrev role_of : Body → Bound UserRole
role_of (role r) = bound r
role_of _ = refused 400

abbrev lane_of : Body → Bound LaneCreate
lane_of (lane l) = bound l
lane_of _ = refused 400

abbrev schedule_of : Body → Bound ScheduleBody
schedule_of (schedule b) = bound b
schedule_of _ = refused 400

abbrev login_of : Body → Bound UserLogin
login_of (login l) = bound l
login_of _ = refused 415

abbrev register_of : Body → Bound UserRegister
register_of (register r) = bound r
register_of _ = refused 415

abbrev first_of : List (Operation × List String) → Option (Operation × List String)
first_of [] = none
first_of (x ∷ xs) = some x

abbrev echo : Echo Body
unfolding matching count integer
echo = record {
  find = λ table m path. first_of (matching table m path);
  unrouted = λ m path. 404;
  uuid = λ t. some (count t);
  integer = integer;
  date = λ t. some (count t);
  slot_body = slot_of;
  role_body = role_of;
  lane_body = lane_of;
  schedule_body = schedule_of;
  login_body = login_of;
  register_body = register_of;
}

abbrev client : Client Body
client = record {
  id_text = strokes;
  int_text = int_text;
  date_text = strokes;
  no_body = empty;
  slot_body = slot;
  role_body = role;
  lane_body = lane;
  schedule_body = schedule;
  login_body = login;
  register_body = register;
}

echo-IsRouter : IsRouter echo
unfolding echo
echo-IsRouter = record { alone = λ table m path o ps e. ap first_of e }

first_page : Option ℤ
first_page = some (pos 1)

before_first : Option ℤ
before_first = some (negsuc 4)

Reads-page : Reads echo client (list_bookings first_page before_first)
unfolding echo integer first_page before_first
Reads-page = (integer-int_text (pos 1), integer-int_text (negsuc 4))

serve_http-write_example :
    serve_http server echo (write client token (list_bookings first_page before_first)) start
    ≡ serve server token (list_bookings first_page before_first) start
serve_http-write_example =
    serve_http-write server echo client echo-IsRouter token (list_bookings first_page before_first)
      start Reads-page

-- A lane is asked for, a path leads nowhere, a body is none, and the generator ticks.
abbrev arrivals : List (Arrival Body)
unfolding write
arrivals =
    http (
      write client token
        (create_lane (record { name = "First"; description = none; lane_type = "vip" })))
    ∷ http (record {
      method = get;
      path = "lanes" ∷ [];
      query = λ name. none;
      body = empty;
      authorization = token;
    })
    ∷ http (record {
      method = post;
      path = "bookings" ∷ "create" ∷ [];
      query = λ name. none;
      body = empty;
      authorization = token;
    })
    ∷ tick
    ∷ []

http_history-history_example :
    http_history server echo arrivals start ≡ history server (events echo arrivals) start
http_history-history_example = http_history-history server echo arrivals start

route-Allowed_example :
    Allowed (declared (cancel_booking 7)) (route server (some claims) (cancel_booking 7) start).0
route-Allowed_example = route-Allowed server (some claims) (cancel_booking 7) start
