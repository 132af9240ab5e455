-- ===== src/Exec/Keeps.antt =====
-- Properties of the tables that an action keeps, whether it returns or fails.
use strike_reserve.Base.{
  ℕ, ◌≡◌, List, refl, Option, none, some, Bool, true, false, if◌then◌else◌, sym, subst, inl, inr,
}
use strike_reserve.Errors.{Error}
use strike_reserve.Db.{Db, Effect, done, violates, no_row}
use strike_reserve.World.{Env, World, Failure, refused, cut_short}
use strike_reserve.Exec.{
  Exec, Result, ok, err, pure, raise, on_error, attempt, at_tick, continue, ◌>>=◌, new_id, now,
  query, respond, query_rows_unchecked, respond_rows, tick, TxManager, IsTransactional,
}

pub record Keeps (P : Db → Type 0) {C A : Type 0} (m : Exec C A) : Type 0 where
  pub at : (w : World C) → P w.db → P (m w).1.db

-- The tables that a statement leaves, where it is carried out.
abbrev pub After : {A : Type 0} → (Db → Type 0) → Effect A → Type 0
After P (done a db) = P db
After P (violates v) = Unit
After P no_row = Unit

module _ {C A : Type 0} (P : Db → Type 0) where
  respond-keeps :
      (env : Env C) (e : Effect A) (w : World C)
      → P w.db
      → After P e
      → (f : Option Failure) → P (respond env f e w).1.db
  respond-keeps env (done a db) w h k none = k
  respond-keeps env (violates v) w h k none = h
  respond-keeps env no_row w h k none = h
  respond-keeps env e w h k (some (refused x)) = h
  respond-keeps env e w h k (some (cut_short n x)) = h

module _ {C A : Type 0} {P : Db → Type 0} where
  pub Keeps-pure : (a : A) → Keeps P (pure {C = C} a)
  Keeps-pure a = record { at = λ w h. h }

  pub Keeps-raise : (e : Error) → Keeps P (raise {C = C} {A = A} e)
  Keeps-raise e = record { at = λ w h. h }

  pub Keeps-on_error : (f : Error → Error) (m : Exec C A) → Keeps P m → Keeps P (on_error f m)
  unfolding on_error
  Keeps-on_error f m k = record { at = λ w h. k.at w h }

  pub Keeps-at_tick : (f : ℕ → Exec C A) → ((n : ℕ) → Keeps P (f n)) → Keeps P (at_tick f)
  unfolding at_tick
  Keeps-at_tick f k = record { at = λ w h. (k w.ticks).at w h }

  pub Keeps-attempt : (m : Exec C A) → Keeps P m → Keeps P (attempt m)
  unfolding attempt
  Keeps-attempt m k = record { at = λ w h. k.at w h }

  pub Keeps-if : (b : Bool) (m n : Exec C A) → Keeps P m → Keeps P n → Keeps P (if b then m else n)
  Keeps-if true m n km kn = km
  Keeps-if false m n km kn = kn

  pub Keeps-query :
      (env : Env C) (s : Db → Effect A)
      → ((db : Db) → P db → After P (s db))
      → Keeps P (query env s)
  unfolding query
  Keeps-query env s k = record {
    at = λ w h. respond-keeps P env (s w.db) _ h (k w.db h) (env.fault w.ticks);
  }

module _ {C A : Type 0} (P : Db → Type 0) where
  respond_rows-keeps :
      (env : Env C) (f : Option Failure) (e : Effect (List A)) (w : World C)
      → P w.db
      → After P e
      → P (respond_rows env f e w).1.db
  respond_rows-keeps env (some (cut_short n x)) (done rows db) w h k = h
  respond_rows-keeps env (some (cut_short n x)) (violates v) w h k = h
  respond_rows-keeps env (some (cut_short n x)) no_row w h k = h
  respond_rows-keeps env (some (refused x)) (done rows db) w h k = h
  respond_rows-keeps env (some (refused x)) (violates v) w h k = h
  respond_rows-keeps env (some (refused x)) no_row w h k = h
  respond_rows-keeps env none (done rows db) w h k = k
  respond_rows-keeps env none (violates v) w h k = h
  respond_rows-keeps env none no_row w h k = h

module _ {C A : Type 0} {P : Db → Type 0} where
  pub Keeps-query_rows_unchecked :
      (env : Env C) (s : Db → Effect (List A))
      → ((db : Db) → P db → After P (s db))
      → Keeps P (query_rows_unchecked env s)
  unfolding query_rows_unchecked
  Keeps-query_rows_unchecked env s k = record {
    at = λ w h. respond_rows-keeps P env (env.fault w.ticks) (s w.db) (tick w) h (k w.db h);
  }

module _ {C A B : Type 0} {P : Db → Type 0} where
  continue-keeps :
      (f : A → Exec C B)
      → ((a : A) → Keeps P (f a))
      → (r : Result A) (w : World C) → P w.db
      → P (continue r f w).1.db
  continue-keeps f k (ok a) w h = (k a).at w h
  continue-keeps f k (err e) w h = h

  pub Keeps-bind :
      (m : Exec C A) (f : A → Exec C B) → Keeps P m → ((a : A) → Keeps P (f a)) → Keeps P (m >>= f)
  unfolding ◌>>=◌
  Keeps-bind m f km kf = record { at = λ w h. continue-keeps f kf (m w).0 (m w).1 (km.at w h) }

module _ {C : Type 0} {P : Db → Type 0} (env : Env C) where
  pub Keeps-new_id : Keeps P (new_id env)
  unfolding new_id
  Keeps-new_id = record { at = λ w h. h }

  pub Keeps-now : Keeps P (now env)
  unfolding now
  Keeps-now = record { at = λ w h. h }

pub ruleset keeps_rules = (
  Keeps-pure, Keeps-raise, Keeps-on_error, Keeps-attempt, Keeps-at_tick, at_tick, Keeps-if,
  Keeps-query, Keeps-query_rows_unchecked, Keeps-bind, Keeps-new_id, Keeps-now,
)

module _ {C A : Type 0} {P : Db → Type 0} where
  pub Keeps-run :
      (tx : TxManager C) → IsTransactional C tx → (m : Exec C A) → Keeps P m → Keeps P (tx.run A m)
  Keeps-run tx t m k = record { at = λ w h. split w h (m w).0 (m w).1 refl (k.at w h) }
    where
      split :
          (w : World C)
          → P w.db
          → (r : Result A) (w' : World C) → m w ≡ (r, w')
          → P w'.db
          → P (tx.run A m w).1.db
      split w h (err e) w' q h' =
          subst (λ (x : Result A × World C). P x.1.db) (sym (t.aborts A m w w' e q)) h
      split w h (ok a) w' q h' = elim (t.commits A m w w' a q) [
        | inl p ↦ subst (λ (x : Result A × World C). P x.1.db) (sym p) h'
        | inr (e, p) ↦ subst (λ (x : Result A × World C). P x.1.db) (sym p) h
      ]
