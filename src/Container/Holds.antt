-- ===== src/Container/Holds.antt =====
-- What the closer of app/internal/app/di.go holds, and what keeps it so: the ways in which a getter is
-- put together.
use strike_reserve.Base.{
  ℕ, suc, ◌+◌, ◌≡◌, ap, String, Bool, true, false, Option, none, some, List, [], ◌∷◌, ◌++◌, str_eq,
  if◌then◌else◌, arith, length, length-append, Bool-cases, inl, inr,
}
use strike_reserve.Closer.{CloseFn, add}
use strike_reserve.Container.{Container, Getter, unless, keep, ◌then_get◌, and_then}

abbrev pub count : Bool → ℕ
count true = 1
count false = 0

module _ {W : Type 0} where
  unfoldable pub times : String → List (CloseFn W) → ℕ
  times name [] = 0
  times name (f ∷ fns) =
      let later = times name fns in if str_eq f.name name then suc later else later

  -- The closer has the pool, the Redis client and the server, each once where it is open, and
  -- nothing else.
  pub record Registered (c : Container W) : Type 0 where
    pub database : times "Database" c.closer.fns ≡ count c.db
    pub redis : times "Redis" c.closer.fns ≡ count c.rdb
    pub echo : times "Echo server" c.closer.fns ≡ count c.r
    pub all : length c.closer.fns ≡ count c.db + count c.rdb + count c.r

  abbrev pub AndThen : (Container W → Type 0) → Option (Container W) → Type 0
  AndThen P none = Unit
  AndThen P (some c) = P c

  pub record Holds (f : Getter W) : Type 0 where
    pub at : (c : Container W) → Registered c → AndThen Registered (f c)

  pub Holds-then_get : (f g : Getter W) → Holds f → Holds g → Holds (f then_get g)
  Holds-then_get f g hf hg = record { at = λ c r. go (f c) (hf.at c r) }
    where
      go : (o : Option (Container W)) → AndThen Registered o → AndThen Registered (and_then o g)
      go none h = tt
      go (some c) h = hg.at c h

  pub Holds-unless : (there : Container W → Bool) (f : Getter W) → Holds f → Holds (unless there f)
  Holds-unless there f h = record { at = λ c r. go c r (there c) }
    where
      go :
          (c : Container W)
          → Registered c
          → (b : Bool) → AndThen Registered (if b then some c else f c)
      go c r true = r
      go c r false = h.at c r

  -- What leaves the closer and the three flags alone.
  pub record Same (c d : Container W) : Type 0 where
    pub closer : d.closer ≡ c.closer
    pub db : d.db ≡ c.db
    pub rdb : d.rdb ≡ c.rdb
    pub r : d.r ≡ c.r

  pub Holds-keep :
      (f : Container W → Container W) → ((c : Container W) → Same c (f c)) → Holds (keep f)
  Holds-keep f same = record {
    at = λ c reg.
        let k = same c in
        record {
          database = rw (k.closer, k.db) reg.database;
          redis = rw (k.closer, k.rdb) reg.redis;
          echo = rw (k.closer, k.r) reg.echo;
          all = rw (k.closer, k.db, k.rdb, k.r) reg.all;
        };
  }

  times-append_one :
      (name : String) (fns : List (CloseFn W)) (f : CloseFn W)
      → times name (fns ++ f ∷ []) ≡ times name fns + (if str_eq f.name name then 1 else 0)
  unfolding times
  times-append_one name [] f = ground arith
  times-append_one name (g ∷ fns) f = ground (arith, times-append_one name fns f)

  module _ (fn : W → Option String × W) (c : Container W) (reg : Registered c) where
    pub Registered-database :
        c.db ≡ false → Registered (record c { db = true; closer = add "Database" fn c.closer })
    unfolding add
    Registered-database k =
        let eq : count c.db ≡ 0 = ap count k in
        record {
          database = rw times-append_one (omega (arith, reg.database, eq));
          redis = rw times-append_one (omega (arith, reg.redis));
          echo = rw times-append_one (omega (arith, reg.echo));
          all = rw length-append (omega (arith, reg.all, eq));
        }

    pub Registered-redis :
        c.rdb ≡ false → Registered (record c { rdb = true; closer = add "Redis" fn c.closer })
    unfolding add
    Registered-redis k =
        let eq : count c.rdb ≡ 0 = ap count k in
        record {
          database = rw times-append_one (omega (arith, reg.database));
          redis = rw times-append_one (omega (arith, reg.redis, eq));
          echo = rw times-append_one (omega (arith, reg.echo));
          all = rw length-append (omega (arith, reg.all, eq));
        }

    pub Registered-echo :
        c.r ≡ false → Registered (record c { r = true; closer = add "Echo server" fn c.closer })
    unfolding add
    Registered-echo k =
        let eq : count c.r ≡ 0 = ap count k in
        record {
          database = rw times-append_one (omega (arith, reg.database));
          redis = rw times-append_one (omega (arith, reg.redis));
          echo = rw times-append_one (omega (arith, reg.echo, eq));
          all = rw length-append (omega (arith, reg.all, eq));
        }

  -- A getter that builds only where nothing is there yet.
  pub Holds-new :
      (there : Container W → Bool) (f : Getter W)
      → ((c : Container W) → there c ≡ false → Registered c → AndThen Registered (f c))
      → Holds (unless there f)
  Holds-new there f h = record {
    at = λ c r. elim (Bool-cases (there c)) [ inl k ↦ rw k r | inr k ↦ rw k (h c k r) ];
  }

pub ruleset getter_rules = (Holds-then_get, Holds-unless, Holds-keep)
