-- ===== src/Exec/Tx.antt =====
-- What follows from the contract of the transaction manager, and two managers: the stub of
-- service/stubs.go, and one that meets the contract.
use strike_reserve.Base.{◌≡◌, refl, sym, inl, inr, ◌∙◌, ap, arith}
use strike_reserve.Errors.{Error}
use strike_reserve.World.{World}
use strike_reserve.Exec.{Exec, Result, ok, err, TxManager, IsTransactional}

-- TxManagerStub.Do
pub stub : {C : Type 0} → TxManager C
stub = record { run = λ A m. m }

abbrev restore : {C A : Type 0} → World C → Result A × World C → Result A × World C
restore w (ok a, w') = (ok a, w')
restore w (err e, w') = (err e, record w' { db = w.db })

-- Undoes the writes of a function that fails, and never fails to commit.
abbrev pub atomic : {C : Type 0} → TxManager C
atomic = record { run = λ A m w. restore w (m w) }

pub atomic-IsTransactional : {C : Type 0} → IsTransactional C atomic
atomic-IsTransactional = record {
  aborts = λ A m w w' e h. ap (restore w) h;
  commits = λ A m w w' a h. inl (ap (restore w) h);
}

pub atomic-commits :
    {C A : Type 0} (m : Exec C A) (w w' : World C) (a : A)
    → m w ≡ (ok a, w')
    → atomic.run A m w ≡ (ok a, w')
atomic-commits m w w' a h = ap (restore w) h

module _ {C : Type 0} (tx : TxManager C) (t : IsTransactional C tx) (A : Type 0)
    (m : Exec C A) where
  -- A transaction that returns has done what its function does.
  run-ok_by :
      (w w' : World C) (a : A)
      → (r : Result A) (v : World C) → m w ≡ (r, v)
      → tx.run A m w ≡ (ok a, w')
      → m w ≡ (ok a, w')
  run-ok_by w w' a (err e) v q h = absurd (cc (t.aborts A m w v e q))
  run-ok_by w w' a (ok b) v q h = elim (t.commits A m w v b q) [
    | inl p ↦ q ∙ sym p ∙ h
    | inr (e, p) ↦ absurd (cc (p))
  ]

  pub run-ok : (w w' : World C) (a : A) → tx.run A m w ≡ (ok a, w') → m w ≡ (ok a, w')
  run-ok w w' a h = run-ok_by w w' a (m w).0 (m w).1 refl h

  run-err_by :
      (w w' : World C) (e : Error)
      → (r : Result A) (v : World C) → m w ≡ (r, v)
      → tx.run A m w ≡ (err e, w')
      → (w'.db ≡ w.db) × (w'.cache ≡ (m w).1.cache)
  run-err_by w w' e (err d) v q h = ground (arith, t.aborts A m w v d q)
  run-err_by w w' e (ok a) v q h = ground (arith, t.commits A m w v a q)

  -- A transaction that fails leaves the tables as they were.
  pub run-err :
      (w w' : World C) (e : Error)
      → tx.run A m w ≡ (err e, w')
      → (w'.db ≡ w.db) × (w'.cache ≡ (m w).1.cache)
  run-err w w' e h = run-err_by w w' e (m w).0 (m w).1 refl h
