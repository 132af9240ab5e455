-- ===== src/Server/Accounts.antt =====
-- Signing up at app/internal/handler/handler.go, and signing in with the account that was made.
use strike_reserve.Base.{
  ℕ, suc, String, ◌≡◌, refl, ap, false, not, List, [], ◌∷◌, ◌++◌, Option, none, some, any,
  if◌then◌else◌, arith, Bool-cases, Option-cases, inl, inr, ◌==◌,
}
use strike_reserve.Models.{Claims, User, UserRegister, role_user, role_valid}
use strike_reserve.Errors.{wrap_db_error}
use strike_reserve.Db.{insert_user, users_clash, Db}
use strike_reserve.World.{World}
use strike_reserve.Exec.{◌>>=◌, query, new_id, now}
use strike_reserve.Repository.Users.{create, has_email}
use strike_reserve.Service.Users.{Bcrypt, hash_password}
use strike_reserve.Service.Users as Service
use strike_reserve.Handler.Auth.{post_register}
use strike_reserve.Server.{Server, route, register}

clash-email :
    (u : User) (users : List User)
    → any (λ v. v.id == u.id) users ≡ false
    → any (λ v. users_clash v u) users ≡ any (has_email u.email) users
clash-email u [] h = refl
clash-email u (v ∷ users) h = ground (arith, clash-email u users)

-- What signing up comes to: the status, and the row that is added.
pub data SignUp : Type 0 where
  rejected : ℕ → SignUp
  joins : User → SignUp

module _ {C : Type 0} (s : Server C) where
  abbrev pub new_user : UserRegister → String → World C → User
  new_user r hash w = record {
    id = s.env.uuid (suc w.ticks);
    email = r.email;
    password_hash = some hash;
    role = role_user;
    created_at = s.env.now (suc (suc w.ticks));
  }

  unfoldable pub sign_up : UserRegister → World C → SignUp
  sign_up r w =
      if not (role_valid r.role)
      then rejected 400
      else if not (s.validator.register_ok r)
      then rejected 400
      else elim (s.bcrypt.generate w.ticks s.cost r.password) [
        | none ↦ rejected 500
        | some hash ↦
            if any (has_email r.email) w.db.users then rejected 500 else joins (new_user r hash w)
      ]

abbrev pub SignsUp : {C : Type 0} → SignUp → Option ℕ × World C → Db → Type 0
SignsUp (rejected n) (status, w) db = (status ≡ some n) × (w.db ≡ db)
SignsUp (joins u) (status, w) db =
    (status ≡ some 201) × (w.db ≡ record db { users = db.users ++ u ∷ [] })

module _ {C : Type 0} (s : Server C) where
  -- Signing up is answered 400 where the role or the body is invalid, 500 where the password
  -- cannot be hashed and where the address is taken, and otherwise 201 with one new user, of the
  -- role "user" whatever role was asked for, with the hash in place of the password; in the other
  -- cases the tables stay; if the insertion meets no failure and the identifier drawn is new.
  pub register-SignsUp :
      (user : Option Claims) (r : UserRegister) (w : World C)
      → s.env.fault (suc (suc (suc w.ticks))) ≡ none
      → any (λ u. u.id == s.env.uuid (suc w.ticks)) w.db.users ≡ false
      → SignsUp (sign_up s r w) (route s user (register r) w) w.db
  unfolding route post_register Service.register hash_password create insert_user new_id query ◌>>=◌
      now wrap_db_error sign_up role_valid
  register-SignsUp user r w f fresh = elim (Bool-cases (role_valid r.role)) [
    | inr a ↦ rw (a, sign_up) (refl, refl)
    | inl a ↦ elim (Bool-cases (s.validator.register_ok r)) [
      | inr b ↦ rw (a, b, sign_up) (refl, refl)
      | inl b ↦ elim (Option-cases (s.bcrypt.generate w.ticks s.cost r.password)) [
        | inl c ↦ rw (a, b, c, sign_up) (refl, refl)
        | inr (hash, c) ↦ elim (Bool-cases (any (has_email r.email) w.db.users)) [
          | inl d ↦
              rw (a, b, c, f, clash-email (new_user s r hash w) w.db.users fresh, d, sign_up)
                (refl, refl)
          | inr d ↦
              rw (a, b, c, f, clash-email (new_user s r hash w) w.db.users fresh, d, sign_up)
                (refl, refl)
        ]
      ]
    ]
  ]

  -- What has been found out where signing up makes an account.
  pub record Joins (r : UserRegister) (w : World C) (u : User) : Type 0 where
    pub hash : String
    pub hashed : s.bcrypt.generate w.ticks s.cost r.password ≡ some hash
    pub kept : u.password_hash ≡ some hash
    pub email : u.email ≡ r.email
    pub role : u.role ≡ role_user
    pub new : any (has_email r.email) w.db.users ≡ false

  joined :
      (r : UserRegister) (w : World C) (u : User) (hash : String)
      → s.bcrypt.generate w.ticks s.cost r.password ≡ some hash
      → sign_up s r w ≡ joins u
      → (u ≡ new_user s r hash w) × (any (has_email r.email) w.db.users ≡ false)
  unfolding sign_up
  joined r w u hash e h = ground arith

  none_joins :
      (r : UserRegister) (w : World C) (u : User)
      → s.bcrypt.generate w.ticks s.cost r.password ≡ none
      → sign_up s r w ≡ joins u
      → ⊥
  unfolding sign_up
  none_joins r w u e h = ground arith

  pub sign_up-Joins :
      (r : UserRegister) (w : World C) (u : User) → sign_up s r w ≡ joins u → Joins r w u
  sign_up-Joins r w u h = elim (Option-cases (s.bcrypt.generate w.ticks s.cost r.password)) [
    | inl e ↦ absurd (none_joins r w u e h)
    | inr (hash, e) ↦
        let (eq, new) = joined r w u hash e h in
        record {
          hash = hash;
          hashed = e;
          kept = ap (λ (x : User). x.password_hash) eq;
          email = ap (λ (x : User). x.email) eq;
          role = ap (λ (x : User). x.role) eq;
          new = new;
        }
  ]
