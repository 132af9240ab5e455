-- ===== src/Database.antt =====
-- app/internal/database/db.go: how a pool of connections is opened, and how migrations are run.
use strike_reserve.Base.{String, Option, none, some}
use strike_reserve.Base.Int.{ℤ}
use strike_reserve.Config.{Database}
use Prim.Native.String.{◌++◌}

-- The fields of pgxpool.Config that the program sets; the others come from the DSN.
pub record PoolConfig : Type 0 where
  pub dsn : String
  pub max_conns : ℤ
  pub min_conns : ℤ
  pub max_conn_lifetime : ℤ
  pub max_conn_idle_time : ℤ
  pub connect_timeout : ℤ

-- A value, or the error of a library.
pub data Fallible (A : Type 0) : Type 0 where
  value : A → Fallible A
  error : String → Fallible A

-- github.com/jackc/pgx/v5/pgxpool: a pool is opened, and pinged.
pub record Pgx (P : Type 0) : Type 0 where
  pub new : String → Fallible P
  pub parse_config : String → Fallible PoolConfig
  pub new_with_config : PoolConfig → Fallible P
  pub ping : P → Option String

abbrev pub pinged : {P : Type 0} → P → Option String → Fallible P
pinged conn none = value conn
pinged conn (some e) = error e

unfoldable pub settings : Database → PoolConfig → PoolConfig
settings db cfg = record cfg {
  max_conns = db.conn.max;
  min_conns = db.conn.min;
  max_conn_lifetime = db.conn.max_life_time;
  max_conn_idle_time = db.conn.max_idle_time;
  connect_timeout = db.conn.connect_timeout;
}

module _ {P : Type 0} (pgx : Pgx P) where
  abbrev pub check : Fallible P → Fallible P
  check (value conn) = pinged conn (pgx.ping conn)
  check (error e) = error e

  -- Connect
  unfoldable pub connect : String → Fallible P
  connect db = check (pgx.new db)

  abbrev pub opened : Database → Fallible PoolConfig → Fallible P
  opened db (value cfg) = check (pgx.new_with_config (settings db cfg))
  opened db (error e) = error e

  -- ConnectWithConfig
  unfoldable pub connect_with_config : Database → Fallible P
  unfolding settings
  connect_with_config db = opened db (pgx.parse_config db.dsn)

pub data UpError : Type 0 where
  no_change : UpError
  broken : String → UpError

-- github.com/golang-migrate/migrate
pub record Migrations (M : Type 0) : Type 0 where
  pub new : String → String → Fallible M
  pub up : M → Option UpError

abbrev pub ignore_no_change : Option UpError → Option String
ignore_no_change none = none
ignore_no_change (some no_change) = none
ignore_no_change (some (broken e)) = some e

module _ {M : Type 0} (migrations : Migrations M) where
  abbrev pub up_all : Fallible M → Option String
  up_all (value m) = ignore_no_change (migrations.up m)
  up_all (error e) = some e

  -- Migrate
  unfoldable pub migrate : String → String → Option String
  migrate migration_dir db = up_all (migrations.new ("file://" ++ migration_dir) db)
