-- ===== src/Server/SignIn.antt =====
-- An account of app/internal, from signing up to the request that carries its token.
use strike_reserve.Base.{
  first-append_one, ℕ, suc, String, ◌≡◌, refl, sym, ap, ◌∙◌, true, false, [], ◌∷◌, ◌++◌, Option,
  none, some, append_assoc, append-nil, any, first, arith, ◌==◌, ◌+◌, str_eq, eq_iff, subst,
}
use strike_reserve.Models.{Claims, User, UserLogin, UserRegister, role_user}
use strike_reserve.Models.Hms.{Text}
use strike_reserve.Db.{Db}
use strike_reserve.World.{World}
use strike_reserve.Exec.{◌>>=◌, query, now, on_error}
use strike_reserve.Repository.Users.{get_by_email, has_email}
use strike_reserve.Repository.Sql.{select_one}
use strike_reserve.Service.Auth.{numeric_date, generate_token, validate_token, key_for, parsed}
use strike_reserve.Service.Users
use strike_reserve.Service.Users.{Bcrypt}
use strike_reserve.Handler.Api.{reply}
use strike_reserve.Handler.Auth.{post_login}
use strike_reserve.Handler.Middleware.{next, jwt_middleware, bearer, split_space, split_from}
use strike_reserve.Server.{Server, route, register}
use strike_reserve.Server.Accounts.{SignsUp, register-SignsUp, sign_up, joins, sign_up-Joins}

head_tail :
    (c : ℕ) (text : Text)
    → any (λ b. b == b' ') (c ∷ text) ≡ false
    → ((c == b' ') ≡ false) × (any (λ b. b == b' ') text ≡ false)
head_tail c text h = ground arith

-- A text with no space is the one part of itself.
split_from_one :
    (part text : Text)
    → any (λ c. c == b' ') text ≡ false
    → split_from part text ≡ (part ++ text) ∷ []
unfolding split_from
split_from_one part [] h = ap (λ t. t ∷ []) (sym (append-nil part))
split_from_one part (c ∷ text) h =
    let (here, later) = head_tail c text h in
    rw here (
      split_from_one (part ++ c ∷ []) text later
      ∙ ap (λ t. t ∷ []) (append_assoc part (c ∷ []) text))

same : (a b : String) → a ≡ b → str_eq a b ≡ true
same a b h = (eq_iff a b).1 h

-- What the program relies on in bcrypt: a password matches its hash.
pub record Matches (b : Bcrypt) : Type 0 where
  pub matches :
      (n cost : ℕ) (password hash : String)
      → b.generate n cost password ≡ some hash
      → b.matches hash password ≡ true

-- What it relies on in jwt at some claims whose times are whole seconds, until their token expires:
-- they are signed, and their token has no space and gives them back.
pub record Signable {C : Type 0} (s : Server C) (c : Claims) : Type 0 where
  pub token : Text
  pub signed : s.jwt.sign s.auth.secret_key c ≡ some token
  pub parses : s.jwt.parse (key_for s.auth.secret_key) token ≡ parsed true c
  pub solid : any (λ b. b == b' ') token ≡ false

module _ {C : Type 0} (s : Server C) where
  abbrev pub claims_at : User → ℕ → Claims
  claims_at u n = record {
    user_id = s.id_text u.id;
    role = u.role;
    expires_at = numeric_date (s.env.now n + s.auth.token_duration);
    issued_at = numeric_date (s.env.now (suc n));
    subject = s.id_text u.id;
  }

  passes :
      (c : Claims) (t : Signable s c)
      → jwt_middleware (validate_token s.jwt s.auth) (bearer ++ b' ' ∷ t.token) ≡ next (some c)
  unfolding jwt_middleware split_space split_from validate_token
  passes c t = rw (split_from_one [] t.token t.solid, t.parses) refl

  answers :
      (l : UserLogin) (w : World C) (u : User) (hash : String) (token : Text)
      → s.validator.login_ok l ≡ true
      → s.env.fault w.ticks ≡ none
      → first (has_email l.email) w.db.users ≡ some u
      → u.password_hash ≡ some hash
      → s.bcrypt.matches hash l.password ≡ true
      → s.jwt.sign s.auth.secret_key (claims_at u (suc w.ticks)) ≡ some token
      → (post_login s.env s.jwt s.auth s.id_text s.validator s.bcrypt l w).0 ≡ reply 200 token
  unfolding post_login Users.login ◌>>=◌ on_error query now get_by_email select_one generate_token
  answers l w u hash token ok f e k m sign = rw (ok, f, e, k, m, sign) refl

  -- A token and its claims, as a request with the token in its header has them.
  pub record SignedIn (l : UserLogin) (u : User) (w : World C) : Type 0 where
    pub token : Text
    pub claims : Claims
    pub answer :
        (post_login s.env s.jwt s.auth s.id_text s.validator s.bcrypt l w).0 ≡ reply 200 token
    pub passes :
        jwt_middleware (validate_token s.jwt s.auth) (bearer ++ b' ' ∷ token) ≡ next (some claims)
    pub user_id : claims.user_id ≡ s.id_text u.id
    pub role : claims.role ≡ role_user

  signs_in :
      (l : UserLogin) (w : World C) (u : User) (hash : String)
      → (t : Signable s (claims_at u (suc w.ticks))) → s.validator.login_ok l ≡ true
      → s.env.fault w.ticks ≡ none
      → first (has_email l.email) w.db.users ≡ some u
      → u.password_hash ≡ some hash
      → u.role ≡ role_user
      → s.bcrypt.matches hash l.password ≡ true
      → SignedIn l u w
  signs_in l w u hash t ok f e k role m = record {
    token = t.token;
    claims = claims_at u (suc w.ticks);
    answer = answers l w u hash t.token ok f e k m t.signed;
    passes = passes _ t;
    user_id = refl;
    role = role;
  }

  -- Whoever signs up can sign in: where signing up makes an account, a login with the same address
  -- and password right after it is answered 200 with a token, and the middleware lets a request
  -- with this token pass, with the claims of the account and the role "user"; if a password
  -- matches its hash, jwt signs the claims, with times cut to whole seconds, and reads them back, no
  -- statement fails, the identifier drawn is new and the login is well-formed.
  pub register-SignedIn :
      (b : Matches s.bcrypt) (user : Option Claims) (r : UserRegister) (u : User) (w : World C)
      → s.env.fault (suc (suc (suc w.ticks))) ≡ none
      → any (λ v. v.id == s.env.uuid (suc w.ticks)) w.db.users ≡ false
      → sign_up s r w ≡ joins u
      → s.env.fault (route s user (register r) w).1.ticks ≡ none
      → s.validator.login_ok (record { email = r.email; password = r.password }) ≡ true
      → Signable s (claims_at u (suc (route s user (register r) w).1.ticks))
      → SignedIn
          (record { email = r.email; password = r.password })
          u
          (route s user (register r) w).1
  register-SignedIn b user r u w f fresh h g ok t =
      let j = sign_up-Joins s r w u h in
      let done =
        subst (λ x. SignsUp x (route s user (register r) w) w.db) h
          (register-SignsUp s user r w f fresh) in
      let users = ap (λ (d : Db). d.users) done.1 in
      let found =
        first-append_one (has_email r.email) w.db.users u j.new (same u.email r.email j.email) in
      signs_in (record { email = r.email; password = r.password }) (route s user (register r) w).1 u
        j.hash t ok g (ap (first (has_email r.email)) users ∙ found) j.kept j.role
        (b.matches w.ticks s.cost r.password j.hash j.hashed)
