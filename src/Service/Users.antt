-- ===== src/Service/Users.antt =====
-- app/internal/service/user.go
use Prim.Native.String.{◌++◌}
use strike_reserve.Base.{ℕ, String, Option, none, some, Bool, ◌==◌, if◌then◌else◌}
use strike_reserve.Errors.{Error, service, invalid_email_or_password, is_not_found, foreign, panic}
use strike_reserve.Models.{User, UserRegister, UserLogin, UserRole, role_user}
use strike_reserve.World.{Env}
use strike_reserve.Exec.{Exec, pure, raise, on_error, ◌>>=◌, new_id, tick}
use strike_reserve.Repository.Users

-- golang.org/x/crypto/bcrypt: a hash from the salt that is drawn at a moment, or its error.
pub record Bcrypt : Type 0 where
  pub default_cost : ℕ
  pub generate : ℕ → ℕ → String → Option String
  pub matches : String → String → Bool

abbrev pub or_invalid : Error → Error
or_invalid e = if is_not_found e then service invalid_email_or_password else e

-- NewUserService
unfoldable pub password_cost : Bcrypt → ℕ → ℕ
password_cost b cost = if cost == 0 then b.default_cost else cost

abbrev pub drawn : {C : Type 0} → Option String → Exec C String
drawn none = raise (foreign "bcrypt")
drawn (some hash) = pure hash

module _ {C : Type 0} (b : Bcrypt) where
  -- GenerateFromPassword
  unfoldable pub hash_password : ℕ → String → Exec C String
  hash_password cost password w = drawn (b.generate w.ticks cost password) (tick w)

  -- `*user.PasswordHash` of a user that has none panics.
  abbrev pub check_password : User → String → Option String → Exec C User
  check_password user password none = raise panic
  check_password user password (some hash) =
      if b.matches hash password then pure user else raise (service invalid_email_or_password)

module _ {C : Type 0} (env : Env C) (b : Bcrypt) where
  unfoldable pub register : ℕ → UserRegister → Exec C User
  unfolding hash_password
  register cost r = do
    hash ← hash_password b cost r.password
    id ← new_id env
    Users.create env (record {
      id = id;
      email = r.email;
      password_hash = some hash;
      role = role_user;
      created_at = 0;
    })

  unfoldable pub login : UserLogin → Exec C User
  login l = do
    user ← on_error or_invalid (Users.get_by_email env l.email)
    check_password b user l.password user.password_hash

-- "dummy_" + id.String() + "@test.com"
abbrev pub dummy_email : (ℕ → String) → ℕ → String
dummy_email id_text id = "dummy_" ++ (id_text id ++ "@test.com")

module _ {C : Type 0} (env : Env C) where
  unfoldable pub get_or_create_dummy : (ℕ → String) → UserRole → Exec C User
  get_or_create_dummy id_text role = do
    id ← new_id env
    Users.get_or_create_for_dummy env (record {
      id = id;
      email = dummy_email id_text id;
      password_hash = none;
      role = role;
      created_at = 0;
    })
