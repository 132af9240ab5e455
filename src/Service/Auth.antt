-- ===== src/Service/Auth.antt =====
-- app/internal/service/auth.go
use strike_reserve.Base.{ℕ, ◌+◌, ◌*◌, ◌/◌, String, Bool, Option, none, some, not, if◌then◌else◌}
use strike_reserve.Models.{Claims, User}
use strike_reserve.Models.Hms.{Text}
use strike_reserve.Errors.{foreign}
use strike_reserve.World.{Env}
use strike_reserve.Exec.{Exec, pure, raise, ◌>>=◌, now}

-- What `jwt.ParseWithClaims` ends with: an error, or a token, valid or not, and its claims.
pub data Parsed : Type 0 where
  failed : String → Parsed
  parsed : Bool → Claims → Parsed

-- github.com/golang-jwt/jwt: signing with HS256, and parsing. Parsing asks a function for the key,
-- and tells it whether the token's method is one of HMAC.
pub record Jwt : Type 0 where
  pub sign : Text → Claims → Option Text
  pub parse : (Bool → Option Text) → Text → Parsed

-- The fields of AuthService.
pub record AuthConfig : Type 0 where
  pub secret_key : Text
  pub token_duration : ℕ

abbrev pub or_foreign : {C : Type 0} → Option Text → Exec C Text
or_foreign none = raise (foreign "jwt")
or_foreign (some token) = pure token

-- The key, for a token signed by HMAC only.
abbrev pub key_for : Text → Bool → Option Text
key_for secret hmac = if hmac then some secret else none

-- jwt.NewNumericDate, which cuts an instant off to whole seconds
abbrev pub numeric_date : ℕ → ℕ
numeric_date t = t / 1000000000 * 1000000000

module _ {C : Type 0} (env : Env C) (jwt : Jwt) (id_text : ℕ → String) where
  unfoldable pub generate_token : AuthConfig → User → Exec C Text
  generate_token a user = do
    expiry ← now env
    issue ← now env
    or_foreign (
        jwt.sign a.secret_key (record {
          user_id = id_text user.id;
          role = user.role;
          expires_at = numeric_date (expiry + a.token_duration);
          issued_at = numeric_date issue;
          subject = id_text user.id;
        }))

abbrev pub accept : Parsed → Option Claims
accept (failed text) = none
accept (parsed valid claims) = if not valid then none else some claims

-- `none` stands for each error that the callers do not tell apart.
unfoldable pub validate_token : Jwt → AuthConfig → Text → Option Claims
validate_token jwt a token = accept (jwt.parse (key_for a.secret_key) token)
