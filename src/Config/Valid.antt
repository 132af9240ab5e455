-- ===== src/Config/Valid.antt =====
-- What a configuration of app/internal/config/config.go that was loaded is sure of.
use strike_reserve.Base.{
  subst, String, ℕ, suc, ◌≡◌, ◌≤◌, ◌<◌, Bool, true, false, not, ◌&&◌, str_eq, leb, ◌==◌, Option,
  none, some, arith, Bool-cases, inl, inr,
}
use strike_reserve.Base.Int.{ℤ, pos, negsuc}
use strike_reserve.Config.{
  Config, Checks, Tag, validate, valid_app, valid_services, valid_page, valid_database, valid_conn,
  valid_retry, valid_redis, App, Database, Services, Conn,
}
use strike_reserve.Config.Loading.{
  ViperLib, loaded, load, prepared, with_file, checked, unmarshalled, read, Viper,
}

abbrev pub at_least : ℕ → ℤ → Bool
at_least n (pos m) = leb n m
at_least n (negsuc m) = false

abbrev pub at_most : ℕ → ℤ → Bool
at_most n (pos m) = leb m n
at_most n (negsuc m) = true

abbrev pub is_zero : ℤ → Bool
is_zero (pos n) = n == 0
is_zero (negsuc n) = false

-- The validator's documentation of the tags on whole numbers.
pub record IsDocumented {F : Type 0} (v : Checks F) : Type 0 where
  pub required : (z : ℤ) → v.int Tag.required z ≡ not (is_zero z)
  pub gt : (n : ℕ) (z : ℤ) → v.int (Tag.gt n) z ≡ at_least (suc n) z
  pub gte : (n : ℕ) (z : ℤ) → v.int (Tag.gte n) z ≡ at_least n z
  pub lte : (n : ℕ) (z : ℤ) → v.int (Tag.lte n) z ≡ at_most n z

-- A number between two bounds, where there is an upper one.
pub data Between (low high : ℕ) : ℤ → Type 0 where
  between : {n : ℕ} → low ≤ n → n ≤ high → Between low high (pos n)

pub data Positive : ℤ → Type 0 where
  positive : {n : ℕ} → 0 < n → Positive (pos n)

pub record Sound {F : Type 0} (c : Config F) : Type 0 where
  pub port : Between 1 65535 c.app.port
  pub shutdown_timeout : Positive c.app.shutdown_timeout
  pub slot_duration : Positive c.app.services.slot_duration
  pub token_duration : Positive c.app.services.auth.token_duration
  pub look_ahead : Positive c.app.services.slot_generator.look_ahead
  pub interval : Positive c.app.services.slot_generator.interval
  pub password_cost : Between 4 31 c.app.services.password_cost
  pub default_page : 0 < c.app.page.default
  pub min_page : 0 < c.app.page.min
  pub default_page_size : 0 < c.app.page.size.default
  pub max_page_size : 0 < c.app.page.size.max
  pub min_page_size : 0 < c.app.page.size.min
  pub conns : Positive c.database.conn.max
  pub min_conns : Positive c.database.conn.min
  pub cache_duration : Positive c.redis.duration

Positive-at_least : (n : ℕ) (z : ℤ) → at_least (suc n) z ≡ true → Positive z
Positive-at_least n (pos m) h = positive (ground arith)
Positive-at_least n (negsuc m) h = absurd (cc h)

not_zero : (z : ℤ) → not (is_zero z) ≡ true → at_least 0 z ≡ true → Positive z
not_zero (pos m) h k = positive (ground arith)
not_zero (negsuc m) h k = absurd (cc k)

bounded :
    (low high : ℕ) (z : ℤ) → at_least low z ≡ true → at_most high z ≡ true → Between low high z
bounded low high (pos m) h k = between (ground arith) (ground arith)
bounded low high (negsuc m) h k = absurd (cc h)

both : (a b : Bool) → (a && b) ≡ true → (a ≡ true) × (b ≡ true)
both a b h = ground arith

last3 : (a b c d : Bool) → (a && b && c && d) ≡ true → (a ≡ true) × (b ≡ true) × (d ≡ true)
last3 a b c d h = ground arith

module _ {F : Type 0} (v : Checks F) (d : IsDocumented v) where
  Positive-valid :
      (z : ℤ) → (v.int Tag.required z && v.int (Tag.gt 0) z && true) ≡ true → Positive z
  Positive-valid z h = Positive-at_least 0 z (ground (arith, d.gt 0 z))

  page_positive :
      (n : ℕ) → (v.int Tag.required (pos n) && v.int (Tag.gt 0) (pos n) && true) ≡ true → 0 < n
  page_positive n h = ground (arith, d.gt 0 (pos n))

  Between-valid :
      (low high : ℕ) (z : ℤ)
      → (v.int Tag.required z && v.int (Tag.gte low) z && v.int (Tag.lte high) z && true) ≡ true
      → Between low high z
  Between-valid low high z h =
      bounded low high z (ground (arith, d.gte low z)) (ground (arith, d.lte high z))

  module _ (s : Services) (h : valid_services v s ≡ true) where
    slot_duration-valid : Positive s.slot_duration
    unfolding valid_services
    slot_duration-valid = Positive-valid s.slot_duration (ground arith)

    token_duration-valid : Positive s.auth.token_duration
    unfolding valid_services
    token_duration-valid = Positive-valid s.auth.token_duration (ground arith)

    look_ahead-valid : Positive s.slot_generator.look_ahead
    unfolding valid_services
    look_ahead-valid = Positive-valid s.slot_generator.look_ahead (ground arith)

    interval-valid : Positive s.slot_generator.interval
    unfolding valid_services
    interval-valid = Positive-valid s.slot_generator.interval (ground arith)

    password_cost-valid : Between 4 31 s.password_cost
    unfolding valid_services
    password_cost-valid = Between-valid 4 31 s.password_cost (ground arith)

  -- "gte=0" allows no zero here, which "required" refuses.
  min_conns-valid :
      (n : Conn)
      → (v.int Tag.required n.min && v.int (Tag.gte 0) n.min && true) ≡ true
      → Positive n.min
  min_conns-valid n h =
      not_zero n.min (ground (arith, d.required n.min)) (ground (arith, d.gte 0 n.min))

  -- The parts of a configuration that passes.
  record Passed (c : Config F) : Type 0 where
    app : valid_app v c.app ≡ true
    services : valid_services v c.app.services ≡ true
    page : valid_page v c.app.page ≡ true
    conn : valid_conn v c.database.conn ≡ true
    redis : valid_redis v c.redis ≡ true

  validate-parts :
      (c : Config F)
      → validate v c ≡ true
      → (valid_app v c.app ≡ true)
        × (valid_database v c.database ≡ true)
        × (valid_redis v c.redis ≡ true)
  unfolding validate
  validate-parts c h =
      last3 (valid_app v c.app) (valid_database v c.database) (valid_retry v c.retry)
        (valid_redis v c.redis) h

  app_parts :
      (a : App)
      → valid_app v a ≡ true
      → (valid_services v a.services ≡ true) × (valid_page v a.page ≡ true)
  unfolding valid_app
  app_parts a h =
      let (most, page) = both _ (valid_page v a.page) h in
      ((both _ (valid_services v a.services) most).1, page)

  conn_part : (d : Database) → valid_database v d ≡ true → valid_conn v d.conn ≡ true
  unfolding valid_database
  conn_part d h = ground arith

  validate-Passed : (c : Config F) → validate v c ≡ true → Passed c
  validate-Passed c h =
      let (app, database, redis) = validate-parts c h in
      let (services, page) = app_parts c.app app in
      record {
        app = app;
        services = services;
        page = page;
        conn = conn_part c.database database;
        redis = redis;
      }

  pub validate-Sound : (c : Config F) → validate v c ≡ true → Sound c
  unfolding valid_app valid_page valid_conn valid_redis
  validate-Sound c h =
      let p = validate-Passed c h in
      record {
        port = Between-valid 1 65535 c.app.port (ground (arith, p.app));
        shutdown_timeout = Positive-valid c.app.shutdown_timeout (ground (arith, p.app));
        slot_duration = slot_duration-valid c.app.services p.services;
        token_duration = token_duration-valid c.app.services p.services;
        look_ahead = look_ahead-valid c.app.services p.services;
        interval = interval-valid c.app.services p.services;
        password_cost = password_cost-valid c.app.services p.services;
        default_page = page_positive c.app.page.default (ground (arith, p.page));
        min_page = page_positive c.app.page.min (ground (arith, p.page));
        default_page_size = page_positive c.app.page.size.default (ground (arith, p.page));
        max_page_size = page_positive c.app.page.size.max (ground (arith, p.page));
        min_page_size = page_positive c.app.page.size.min (ground (arith, p.page));
        conns = Positive-valid c.database.conn.max (ground (arith, p.conn));
        min_conns = min_conns-valid c.database.conn (ground (arith, p.conn));
        cache_duration = Positive-valid c.redis.duration (ground (arith, p.redis));
      }

loaded_inj : {F : Type 0} {b c : Config F} → loaded b ≡ loaded c → b ≡ c
loaded_inj h = cc

module _ {F : Type 0} (lib : ViperLib F) (v : Checks F) where
  same : (b c : Config F) → validate v b ≡ true → loaded b ≡ loaded c → validate v c ≡ true
  same b c k h = subst (λ x. validate v x ≡ true) (loaded_inj h) k

  checked-validate : (b c : Config F) → checked v b ≡ loaded c → validate v c ≡ true
  checked-validate b c h = elim (Bool-cases (validate v b)) [
    | inl k ↦ same b c k (rw k at h)
    | inr k ↦ absurd (cc (rw k at h))
  ]

  unmarshalled-validate :
      (o : Option (Config F)) (c : Config F) → unmarshalled v o ≡ loaded c → validate v c ≡ true
  unmarshalled-validate none c h = absurd (cc h)
  unmarshalled-validate (some b) c h = checked-validate b c h

  read-validate :
      (viper : Viper) (o : Option lib.File) (c : Config F)
      → read lib v viper o ≡ loaded c
      → validate v c ≡ true
  read-validate viper none c h = absurd (cc h)
  read-validate viper (some file) c h = unmarshalled-validate (lib.unmarshal viper file) c h

  load-validate : (path : String) (c : Config F) → load lib v path ≡ loaded c → validate v c ≡ true
  unfolding load
  load-validate path c h = elim (Bool-cases (str_eq path "")) [
    | inl k ↦ read-validate prepared (some lib.no_file) c (rw k at h)
    | inr k ↦ read-validate (with_file path) (lib.read_in_config (with_file path)) c (rw k at h)
  ]

  -- A configuration that was loaded has its port and its hashing cost in their ranges, and positive
  -- durations, page numbers, page sizes and connection limits (the least number of connections may
  -- not be 0 either), if the validator does with whole numbers what it documents.
  pub load-Sound :
      (path : String) (c : Config F) → IsDocumented v → load lib v path ≡ loaded c → Sound c
  load-Sound path c d h = validate-Sound v d c (load-validate path c h)
