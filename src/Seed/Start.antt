-- ===== src/Seed/Start.antt =====
-- app/seed/main.go from its flag on: what it is built on, and how it ends.
use strike_reserve.Base.{
  ℕ, ◌+◌, ◌≤◌, ◌≡◌, refl, false, String, Bool-cases, inl, inr, length, str_eq, if◌then◌else◌,
}
use strike_reserve.Db.{Db}
use strike_reserve.World.{Env, World}
use strike_reserve.Exec.{Result, ok, TxManager, IsTransactional}
use strike_reserve.Config.{Config, Checks}
use strike_reserve.Config.Loading.{ViperLib, Loaded, loaded, failed, load}
use strike_reserve.Database.{Pgx, Fallible, value, error, connect}
use strike_reserve.Config.Settings.{magnitude}
use strike_reserve.InMemory
use strike_reserve.InMemory.{Lru}
use strike_reserve.Service.Users.{Bcrypt, password_cost}
use strike_reserve.Seed.{Rng, SeedLib, Wanted, Progress, seed_with}
use strike_reserve.Seed.Bounds.{seed_success}

-- log.Fatal, the panic on the nil configuration, or the end of the steps.
pub data Ended (S : Type 0) : Type 0 where
  fatal panicked : Ended S
  ended : Result Progress × World S → Ended S

-- What the script is built on, beside its configuration.
pub record Script (S : Type 0) : Type 1 where
  pub env : Env S
  pub lru : Lru S
  pub tx : TxManager S
  pub bcrypt : Bcrypt
  pub rng : Rng
  pub decimal : ℕ → String

abbrev pub with_lru : {S : Type 0} → Lru S → Env S → Env S
with_lru lru e = record e {
  cache_get = InMemory.get lru;
  cache_set = InMemory.set lru;
  cache_delete = InMemory.delete lru;
}

abbrev pub seed_lib : {S F : Type 0} → Script S → Config F → SeedLib S
seed_lib s cfg = record {
  tx = s.tx;
  bcrypt = s.bcrypt;
  cost = password_cost s.bcrypt (magnitude cfg.app.services.password_cost);
  slot_duration = magnitude cfg.app.services.slot_duration;
  rng = s.rng;
  decimal = s.decimal;
}

abbrev pub first_world : {S F : Type 0} → Script S → Config F → Db → World S
first_world s cfg db = record {
  db = db;
  cache =
      InMemory.new_in_memory_lru_cache s.lru (magnitude cfg.redis.size)
        (magnitude cfg.redis.duration);
  ticks = 0;
}

module _ {S P F : Type 0} (s : Script S) (pgx : Pgx P) (lib : ViperLib F) (v : Checks F)
    (n : Wanted) where
  -- The error of the configuration is dropped, and that of the connection comes first.
  abbrev pub begun : Db → Loaded F → Fallible P → Ended S
  begun db cfg (error e) = fatal
  begun db (failed e) (value pool) = panicked
  begun db (loaded cfg) (value pool) =
      ended (seed_with (with_lru s.lru s.env) (seed_lib s cfg) n (first_world s cfg db))

  -- main, by the flag -db-url and what the database holds; closing the pool leaves the tables.
  unfoldable pub main : String → Db → Ended S
  unfolding connect load
  main flag db =
      if str_eq flag ""
      then fatal
      else if str_eq flag "url"
      then fatal
      else begun db (load lib v "../config.yaml") (connect pgx flag)

  -- What a script that has come to its end had: a configuration and a connection.
  pub record Done (flag : String) (db : Db) (q : Progress) (w : World S) : Type 0 where
    pub flagged : str_eq flag "" ≡ false
    pub named : str_eq flag "url" ≡ false
    pub config : (cfg : Config F) × (load lib v "../config.yaml" ≡ loaded cfg)
    pub pool : (p : P) × (connect pgx flag ≡ value p)
    pub rows : length w.db.bookings ≡ length db.bookings + q.booking_count
    pub bound : q.booking_count ≤ n.target_bookings

  begun-Done :
      (flag : String) (db : Db) (q : Progress) (w : World S) (l : Loaded F) (c : Fallible P)
      → IsTransactional S s.tx
      → str_eq flag "" ≡ false
      → str_eq flag "url" ≡ false
      → load lib v "../config.yaml" ≡ l
      → connect pgx flag ≡ c
      → begun db l c ≡ ended (ok q, w)
      → Done flag db q w
  begun-Done flag db q w l (error e) t f g a b h = absurd (cc h)
  begun-Done flag db q w (failed e) (value pool) t f g a b h = absurd (cc h)
  begun-Done flag db q w (loaded cfg) (value pool) t f g a b h =
      let (rows, bound) =
        seed_success (with_lru s.lru s.env) (seed_lib s cfg) n t q (first_world s cfg db) w
          (cc h) in
      record {
        flagged = f;
        named = g;
        config = (cfg, a);
        pool = (pool, b);
        rows = rows;
        bound = bound;
      }

  -- A script that comes to its end, whatever numbers it is given in place of its own, has been given
  -- the URL of a database, has loaded its configuration and is connected; there are as many new
  -- bookings as it counts, and it counts at most as many as it wants; if
  -- transactions are what they are taken for.
  pub seed_main-Done :
      (flag : String) (db : Db) (q : Progress) (w : World S)
      → IsTransactional S s.tx
      → main flag db ≡ ended (ok q, w)
      → Done flag db q w
  unfolding main
  seed_main-Done flag db q w t h = elim (Bool-cases (str_eq flag "")) [
    | inl a ↦ absurd (cc (rw a at h))
    | inr a ↦ elim (Bool-cases (str_eq flag "url")) [
      | inl b ↦ absurd (cc (rw (a, b) at h))
      | inr b ↦
          begun-Done flag db q w (load lib v "../config.yaml") (connect pgx flag) t a b refl refl
            (rw (a, b) at h)
    ]
  ]
