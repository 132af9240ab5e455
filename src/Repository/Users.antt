-- ===== src/Repository/Users.antt =====
-- app/internal/repository/users.go
use strike_reserve.Base.{
  ℕ, String, Bool, map, Option, none, some, str_eq, first, ◌==◌, not, if◌then◌else◌,
}
use strike_reserve.Models.{User, UserRole, role_valid}
use strike_reserve.Db.{Db, Effect, done, violates, bad_enum, insert_user}
use strike_reserve.World.{Env}
use strike_reserve.Exec.{Exec, ◌>>=◌, query}
use strike_reserve.Repository.Lanes.{stamp}
use strike_reserve.Repository.Sql.{select_one, one_row, returning, map_effect}

unfoldable pub set_role : String → UserRole → User → User
set_role email role u = if str_eq u.email email then record u { role = role } else u

abbrev pub has_email : String → User → Bool
has_email email u = str_eq u.email email

-- INSERT … ON CONFLICT (email) DO UPDATE SET role = EXCLUDED.role RETURNING created_at
unfoldable pub upsert_user : User → Db → Effect ℕ
unfolding set_role
upsert_user u db =
    if not (role_valid u.role)
    then violates bad_enum
    else elim (first (has_email u.email) db.users) [
      | some old ↦
          done old.created_at (record db { users = map (set_role u.email u.role) db.users })
      | none ↦ returning u.created_at (insert_user u db)
    ]

-- The columns that `GetByID` reads leave out the password hash.
abbrev without_hash : Option User → Option User
without_hash none = none
without_hash (some u) = some (record u { password_hash = none })

module _ {C : Type 0} (env : Env C) where
  unfoldable pub get_or_create_for_dummy : User → Exec C User
  unfolding upsert_user
  get_or_create_for_dummy user = do
    at ← stamp env user.created_at
    query env (λ db.
        map_effect (λ stored. record user { created_at = stored })
          (upsert_user (record user { created_at = at; password_hash = none }) db))

  -- The user's own id is sent.
  unfoldable pub create : User → Exec C User
  create user = do
    at ← stamp env user.created_at
    let row = record user { created_at = at }
    query env (λ db. returning row (insert_user row db))

  unfoldable pub get_by_email : String → Exec C User
  unfolding select_one
  get_by_email email = query env (λ db. select_one (has_email email) db.users db)

  unfoldable pub get_by_id : ℕ → Exec C User
  get_by_id id = query env (λ db. one_row (without_hash (first (λ u. u.id == id) db.users)) db)
