-- ===== src/Handler/Middleware.antt =====
-- app/internal/handler/middlewares.go: who is calling. The logger middlewares only add a logger.
pub mod Bearer
use strike_reserve.Base.{
  Bool, true, false, ◌&&◌, List, [], ◌∷◌, ◌++◌, Option, none, some, ◌==◌, if◌then◌else◌,
}
use strike_reserve.Models.{Claims}
use strike_reserve.Models.Hms.{Text}

-- strings.Split(text, " "): the part that is being read, and the parts behind it.
unfoldable pub split_from : Text → Text → List Text
split_from part [] = part ∷ []
split_from part (c ∷ text) =
    let closed = part ∷ split_from [] text in
    let longer = split_from (part ++ c ∷ []) text in if c == b' ' then closed else longer

unfoldable pub split_space : Text → List Text
unfolding split_from
split_space text = split_from [] text

abbrev pub same_text : Text → Text → Bool
same_text [] [] = true
same_text (c ∷ s) (d ∷ t) = c == d && same_text s t
same_text _ _ = false

abbrev pub bearer : Text
bearer = b'B' ∷ b'e' ∷ b'a' ∷ b'r' ∷ b'e' ∷ b'r' ∷ []

pub data Refusal : Type 0 where
  invalid_auth_header invalid_token : Refusal

-- The request goes on, with claims in its context or without, or is answered 401.
pub data Gate : Type 0 where
  next : Option Claims → Gate
  refuse : Refusal → Gate

abbrev pub admit : Option Claims → Gate
admit none = refuse invalid_token
admit (some claims) = next (some claims)

-- len(parts) != 2 || parts[0] != "Bearer"
abbrev check_parts : (Text → Option Claims) → List Text → Gate
check_parts validate (scheme ∷ token ∷ []) =
    if same_text scheme bearer then admit (validate token) else refuse invalid_auth_header
check_parts validate _ = refuse invalid_auth_header

-- JWTMiddleware and StrictJWTMiddleware, by the Authorization header ("" where there is none).
unfoldable pub jwt_middleware : (Text → Option Claims) → Text → Gate
unfolding split_space
jwt_middleware validate [] = next none
jwt_middleware validate (c ∷ header) = check_parts validate (split_space (c ∷ header))
