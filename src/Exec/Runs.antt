-- ===== src/Exec/Runs.antt =====
-- A chain of actions that ends in a result, or in an error, taken apart at its first action.
use strike_reserve.Base.{◌≡◌, refl, ◌⊎◌, inl, inr, arith}
use strike_reserve.Errors.{Error}
use strike_reserve.Db.{Db, Effect, done}
use strike_reserve.World.{Env, World}
use strike_reserve.Exec.{Exec, Result, ok, err, continue, ◌>>=◌, query}

module _ {C A B : Type 0} where
  continue-ok :
      (f : A → Exec C B) (r : Result A) (v w' : World C) (b : B)
      → continue r f v ≡ (ok b, w')
      → (a : A) × (r ≡ ok a) × (f a v ≡ (ok b, w'))
  continue-ok f (ok a) v w' b h = (a, refl, h)
  continue-ok f (err e) v w' b h = cc

  pub >>=-ok :
      (m : Exec C A) (f : A → Exec C B) (w w' : World C) (b : B)
      → (m >>= f) w ≡ (ok b, w')
      → (a : A) × (v : World C) × (m w ≡ (ok a, v)) × (f a v ≡ (ok b, w'))
  unfolding ◌>>=◌
  >>=-ok m f w w' b h =
      let (a, e, k) = continue-ok f (m w).0 (m w).1 w' b h in (a, (m w).1, λ i. (e i, (m w).1), k)

  abbrev pub FailsAt : Exec C A → (A → Exec C B) → World C → World C → Error → Type 0
  FailsAt m f w w' e =
      (m w ≡ (err e, w')) ⊎ ((a : A) × (v : World C) × (m w ≡ (ok a, v)) × (f a v ≡ (err e, w')))

  continue-err :
      (f : A → Exec C B) (r : Result A) (v w' : World C) (e : Error)
      → continue r f v ≡ (err e, w')
      → ((◌≡◌ {A = Result A × World C} (r, v) (err e, w')))
        ⊎ ((a : A) × (r ≡ ok a) × (f a v ≡ (err e, w')))
  continue-err f (ok a) v w' e h = inr (a, refl, h)
  continue-err f (err d) v w' e h = inl (ground arith)

  pub >>=-err :
      (m : Exec C A) (f : A → Exec C B) (w w' : World C) (e : Error)
      → (m >>= f) w ≡ (err e, w')
      → FailsAt m f w w' e
  unfolding ◌>>=◌
  >>=-err m f w w' e h = elim (continue-err f (m w).0 (m w).1 w' e h) [
    | inl p ↦ inl p
    | inr (a, q, k) ↦ inr (a, (m w).1, λ i. (q i, (m w).1), k)
  ]

module _ {C A : Type 0} (env : Env C) where
  -- A statement that gives a value was carried out.
  pub query-ok :
      (statement : Db → Effect A) (w w' : World C) (a : A)
      → query env statement w ≡ (ok a, w')
      → (statement w.db ≡ done a w'.db) × (w'.cache ≡ w.cache)
  unfolding query
  query-ok statement w w' a h = ground arith
