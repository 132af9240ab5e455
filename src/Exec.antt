-- ===== src/Exec.antt =====
-- Actions of the services: they may change the world and end in a result or an error value.
-- What was written before an error stays written, so the world comes back beside the error too.
pub mod Keeps
pub mod Tx
pub mod Runs
use strike_reserve.Base.{ℕ, suc, ◌≡◌, ◌⊎◌, Bool, Option, none, some, List, [], take, if◌then◌else◌}
use strike_reserve.Errors.{Error, DriverError, no_rows, pg_error, wrap_db_error}
use strike_reserve.Db.{Db, Effect, done, violates, no_row, sql_state}
use strike_reserve.World.{Env, World, Failure, refused, cut_short}

pub data Result {ℓ} (A : Type ℓ) : Type ℓ where
  ok : A → Result A
  err : Error → Result A

abbrev pub Exec : Type 0 → Type 0 → Type 0
Exec C A = World C → Result A × World C

abbrev pub adjust : {A : Type 0} → (Error → Error) → Result A → Result A
adjust f (ok a) = ok a
adjust f (err e) = err (f e)

module _ {C A : Type 0} where
  abbrev pub pure : A → Exec C A
  pure a w = (ok a, w)

  abbrev pub raise : Error → Exec C A
  raise e w = (err e, w)

  -- `if err != nil { … return … }`: the error that is returned in place of the one that came.
  unfoldable pub on_error : (Error → Error) → Exec C A → Exec C A
  on_error f m w = let (r, w') = m w in (adjust f r, w')

  -- The error as a value, for code that goes on after one.
  unfoldable pub attempt : Exec C A → Exec C (Result A)
  attempt m w = let (r, w') = m w in (ok r, w')

  -- An action that sees how much of the outside has been used up.
  unfoldable pub at_tick : (ℕ → Exec C A) → Exec C A
  at_tick f w = f w.ticks w

module _ {C A B : Type 0} where
  abbrev pub continue : Result A → (A → Exec C B) → Exec C B
  continue (ok a) f w = f a w
  continue (err e) f w = (err e, w)

  infixl 5 ◌>>=◌ ◌>>◌
  unfoldable pub ◌>>=◌ : Exec C A → (A → Exec C B) → Exec C B
  ◌>>=◌ m f w = let (r, w') = m w in continue r f w'

  abbrev pub ◌>>◌ : Exec C A → Exec C B → Exec C B
  m >> n = m >>= λ _. n

abbrev pub tick : {C : Type 0} → World C → World C
tick w = record w { ticks = suc w.ticks }

module _ {C : Type 0} (env : Env C) where
  -- uuid.New()
  unfoldable pub new_id : Exec C ℕ
  new_id w = (ok (env.uuid w.ticks), tick w)

  -- time.Now().UTC()
  unfoldable pub now : Exec C ℕ
  now w = (ok (env.now w.ticks), tick w)

module _ {C A : Type 0} (env : Env C) where
  abbrev pub settle : Effect A → Exec C A
  settle (done a db) w = (ok a, record w { db = db })
  settle (violates v) w =
      (err (wrap_db_error (pg_error (sql_state v) (env.detail v) (env.message v))), w)
  settle no_row w = (err (wrap_db_error no_rows), w)

  abbrev pub respond : Option Failure → Effect A → Exec C A
  respond none effect w = settle effect w
  respond (some (refused e)) effect w = (err (wrap_db_error e), w)
  respond (some (cut_short n e)) effect w = (err (wrap_db_error e), w)

  -- One statement on the connection of the context: the effect that it has on the tables, or the
  -- failure of the driver, and `wrapDBError` of what went wrong.
  unfoldable pub query : (Db → Effect A) → Exec C A
  query statement w = respond (env.fault w.ticks) (statement w.db) (tick w)

module _ {C A : Type 0} (env : Env C) where
  abbrev pub respond_rows : Option Failure → Effect (List A) → Exec C (List A)
  respond_rows (some (cut_short n e)) (done rows db) w = (ok (take n rows), w)
  respond_rows none (violates v) w = (ok [], w)
  respond_rows failure effect w = respond env failure effect w

  -- A statement whose rows are read by `for rows.Next() { … }` with no look at `rows.Err()`
  -- afterwards: what goes wrong while they are read only ends the list. A statement that the server
  -- refuses when it is bound, as one with an OFFSET out of range, is refused while rows are read.
  unfoldable pub query_rows_unchecked : (Db → Effect (List A)) → Exec C (List A)
  query_rows_unchecked statement w = respond_rows (env.fault w.ticks) (statement w.db) (tick w)

-- The `TxManager` of service/interfaces.go: `Do(ctx, fn)`, with the variables that `fn` assigns as
-- its result.
pub record TxManager (C : Type 0) : Type 1 where
  pub run : (A : Type 0) → Exec C A → Exec C A

-- What the services rely on: an error of `fn` is returned and its writes are undone; otherwise the
-- writes stay, or the commit fails and none does.
pub record IsTransactional (C : Type 0) (tx : TxManager C) : Type 1 where
  pub aborts :
      (A : Type 0) (m : Exec C A) (w w' : World C) (e : Error)
      → m w ≡ (err e, w')
      → tx.run A m w ≡ (err e, record w' { db = w.db })
  pub commits :
      (A : Type 0) (m : Exec C A) (w w' : World C) (a : A)
      → m w ≡ (ok a, w')
      → (tx.run A m w ≡ (ok a, w'))
        ⊎ ((e : Error) × (tx.run A m w ≡ (err e, record w' { db = w.db })))
