-- ===== src/Handler/Auth.antt =====
-- The login handlers of app/internal/handler/handler.go.
use strike_reserve.Base.{ℕ, String, Bool, not, if◌then◌else◌}
use strike_reserve.Errors.{ServiceError, is_service}
use strike_reserve.Models.{User, UserRole, UserLogin, UserRegister, role_valid}
use strike_reserve.Models.Hms.{Text}
use strike_reserve.World.{Env}
use strike_reserve.Exec.{Result, ok, err}
use strike_reserve.Service.Auth.{Jwt, AuthConfig, generate_token}
use strike_reserve.Service.Users
use strike_reserve.Service.Users.{Bcrypt}
use strike_reserve.Handler.Api.{
  Response, reply, failure, internal, ApiUser, to_api_user, invalid_request, unauthorized,
  msg_invalid_role, msg_invalid_credentials, msg_invalid_registration,
}
use strike_reserve.Handler.Bookings.{Handle, answer, refuse, proceed}

-- github.com/go-playground/validator at the tags of models.go.
pub record Validator : Type 0 where
  pub login_ok : UserLogin → Bool
  pub register_ok : UserRegister → Bool

abbrev pub token_response : Result Text → Response Text
token_response (ok token) = reply 200 token
token_response (err e) = internal e

abbrev pub registered : Result User → Response ApiUser
registered (ok user) = reply 201 (to_api_user user)
registered (err e) =
    if is_service ServiceError.invalid_email_or_password e
    then failure 400 invalid_request msg_invalid_registration
    else internal e

module _ {C : Type 0} (env : Env C) (jwt : Jwt) (a : AuthConfig) (id_text : ℕ → String) where
  abbrev pub dummy_token : Result User → Handle C Text
  dummy_token (ok user) = answer token_response (generate_token env jwt id_text a user)
  dummy_token (err e) = refuse (internal e)

  unfoldable pub post_dummy_login : UserRole → Handle C Text
  post_dummy_login role =
      if not (role_valid role)
      then refuse (failure 400 invalid_request msg_invalid_role)
      else proceed dummy_token (Users.get_or_create_dummy env id_text role)

  abbrev pub login_token : Result User → Handle C Text
  login_token (ok user) = answer token_response (generate_token env jwt id_text a user)
  login_token (err e) = refuse (
      if is_service ServiceError.invalid_email_or_password e
      then failure 401 unauthorized msg_invalid_credentials
      else internal e)

  unfoldable pub post_login : Validator → Bcrypt → UserLogin → Handle C Text
  post_login v b login =
      if not (v.login_ok login)
      then refuse (failure 401 unauthorized msg_invalid_credentials)
      else proceed login_token (Users.login env b login)

module _ {C : Type 0} (env : Env C) where
  unfoldable pub post_register : Validator → Bcrypt → ℕ → UserRegister → Handle C ApiUser
  unfolding to_api_user
  post_register v b cost r =
      if not (role_valid r.role)
      then refuse (failure 400 invalid_request msg_invalid_role)
      else if not (v.register_ok r)
      then refuse (failure 400 invalid_request msg_invalid_registration)
      else answer registered (Users.register env b cost r)
