-- ===== src/Service/Bookings/Cancel.antt =====
-- What `BookingService.Cancel` of app/internal/service/booking.go does on each of its branches.
use strike_reserve.Base.{
  ℕ, ◌≡◌, refl, sym, ◌∙◌, inl, inr, true, false, map, Option, none, some, first, arith, ◌==◌,
}
use strike_reserve.Models.{Booking, Slot, cancelled, is_active}
use strike_reserve.Errors.{Error}
use strike_reserve.Db.{Db}
use strike_reserve.World.{Env, World}
use strike_reserve.Exec.{ok, err, pure, TxManager, IsTransactional, ◌>>=◌, on_error, query}
use strike_reserve.Exec.Runs.{>>=-ok, >>=-err}
use strike_reserve.Exec.Tx.{run-ok, run-err}
use strike_reserve.Repository.Sql.{select_one}
use strike_reserve.Repository.Bookings
use strike_reserve.Repository.Bookings.{set_cancelled}
use strike_reserve.Repository.Slots
use strike_reserve.Service.Bookings.{cancel, cancel_in_tx, forget_slot, forget_if_changed}
use strike_reserve.Service.Bookings.Create.{find_slot, forgotten}

abbrev pub find_booking : ℕ → Db → Option Booking
find_booking id db = first (λ b. b.id == id) db.bookings

abbrev pub cancelled_in : ℕ → Db → Db
cancelled_in id db = record db { bookings = map (set_cancelled id) db.bookings }

module _ {C : Type 0} (env : Env C) where
  -- Tables and cache after the call, for a row that was active (and its slot), or was not.
  pub data Change (id : ℕ) (row : Booking) (w w' : World C) : Type 0 where
    changed :
        (s : Slot)
        → is_active row.status ≡ true
        → find_slot row.slot_id w.db ≡ some s
        → w'.db ≡ cancelled_in id w.db
        → w'.cache ≡ env.cache_delete (forgotten env s) w.cache
        → Change id row w w'
    kept : is_active row.status ≡ false → w'.db ≡ w.db → w'.cache ≡ w.cache → Change id row w w'

  -- A booking that the call returns: the user's own, as its row but for the status.
  pub record Cancelled (id user_id : ℕ) (b row : Booking) (w w' : World C) : Type 0 where
    pub found : find_booking id w.db ≡ some row
    pub owner : row.user_id ≡ user_id
    pub result : b ≡ record row { status = cancelled }
    pub change : Change id row w w'

  cache-cancel_in_tx :
      (id user_id : ℕ) (w : World C) → (cancel_in_tx env id user_id w).1.cache ≡ w.cache
  unfolding cancel_in_tx ◌>>=◌ on_error query Bookings.get Slots.get_by_id Bookings.cancel
  cache-cancel_in_tx id user_id w = ground arith

  -- What the transaction of a call that succeeds has found and done.
  in_tx-found :
      (id user_id : ℕ) (w v : World C) (b : Booking) (o : Option Slot)
      → cancel_in_tx env id user_id w ≡ (ok (b, o), v)
      → (row : Booking) × (find_booking id w.db ≡ some row)
        × (row.user_id ≡ user_id)
        × (b ≡ record row { status = cancelled })
  unfolding cancel_in_tx ◌>>=◌ on_error query Bookings.get Slots.get_by_id Bookings.cancel
      select_one
  in_tx-found id user_id w v b o h = ground arith

  in_tx-kept :
      (id user_id : ℕ) (w v : World C) (b row : Booking)
      → find_booking id w.db ≡ some row
      → cancel_in_tx env id user_id w ≡ (ok (b, none), v)
      → (is_active row.status ≡ false) × (v.db ≡ w.db)
  unfolding cancel_in_tx ◌>>=◌ on_error query Bookings.get Slots.get_by_id Bookings.cancel
      select_one
  in_tx-kept id user_id w v b row e h = ground arith

  in_tx-changed :
      (id user_id : ℕ) (w v : World C) (b row : Booking) (s : Slot)
      → find_booking id w.db ≡ some row
      → cancel_in_tx env id user_id w ≡ (ok (b, some s), v)
      → (is_active row.status ≡ true)
        × (find_slot row.slot_id w.db ≡ some s)
        × (v.db ≡ cancelled_in id w.db)
  unfolding cancel_in_tx ◌>>=◌ on_error query Bookings.get Slots.get_by_id Bookings.cancel
      select_one
  in_tx-changed id user_id w v b row s e h = ground arith

  after_tx-none :
      (b : Booking) (v : World C) → (forget_if_changed env none >>= λ _. pure b) v ≡ (ok b, v)
  unfolding ◌>>=◌
  after_tx-none b v = refl

  after_tx-some :
      (s : Slot) (b : Booking) (v : World C)
      → (forget_if_changed env (some s) >>= λ _. pure b) v
        ≡ (ok b, record v { cache = env.cache_delete (forgotten env s) v.cache })
  unfolding ◌>>=◌ forget_slot
  after_tx-some s b v = refl

  in_tx-Change :
      (id user_id : ℕ) (w v w' : World C) (b c row : Booking) (o : Option Slot)
      → find_booking id w.db ≡ some row
      → cancel_in_tx env id user_id w ≡ (ok (b, o), v)
      → (forget_if_changed env o >>= λ _. pure b) v ≡ (ok c, w')
      → Change id row w w' × (b ≡ c)
  in_tx-Change id user_id w v w' b c row none e h q =
      let k = in_tx-kept id user_id w v b row e h in
      let r = sym (after_tx-none b v) ∙ q in
      (kept k.0 (ground arith) (ground (arith, cache-cancel_in_tx id user_id w)), ground arith)
  in_tx-Change id user_id w v w' b c row (some s) e h q =
      let k = in_tx-changed id user_id w v b row s e h in
      let r = sym (after_tx-some s b v) ∙ q in
      (
        changed s k.0 k.1 (ground arith) (ground (arith, cache-cancel_in_tx id user_id w)),
        ground arith,
      )

module _ {C : Type 0} (env : Env C) (tx : TxManager C) (t : IsTransactional C tx) where
  -- Whenever `Cancel` returns a booking, it is the user's own and cancelled, otherwise as stored. An
  -- active one has been marked in the tables, nothing else changed there, and its slot's day is
  -- deleted from the cache; for one that was cancelled before, tables and cache stay as they were.
  pub cancel_success :
      (id user_id : ℕ) (w w' : World C) (b : Booking)
      → cancel env tx id user_id w ≡ (ok b, w')
      → (row : Booking) × Cancelled env id user_id b row w w'
  unfolding cancel
  cancel_success id user_id w w' b h =
      let (x, v, p, q) =
        >>=-ok (tx.run (Booking × Option Slot) (cancel_in_tx env id user_id)) _ w w' b h in
      let r = run-ok tx t _ _ w v x p in
      let (row, found, owner, result) = in_tx-found env id user_id w v x.0 x.1 r in
      let (change, same) = in_tx-Change env id user_id w v w' x.0 b row x.1 found r q in
      (row, record { found = found; owner = owner; result = sym same ∙ result; change = change })

  after_tx-ok :
      (o : Option Slot) (b : Booking) (v w' : World C) (e : Error)
      → (forget_if_changed env o >>= λ _. pure b) v ≡ (err e, w')
      → ⊥
  after_tx-ok none b v w' e h = cc (after_tx-none env b v)
  after_tx-ok (some s) b v w' e h = cc (after_tx-some env s b v)

  -- Whenever `Cancel` fails, tables and cache are as they were.
  pub cancel_failure :
      (id user_id : ℕ) (w w' : World C) (e : Error)
      → cancel env tx id user_id w ≡ (err e, w')
      → (w'.db ≡ w.db) × (w'.cache ≡ w.cache)
  unfolding cancel
  cancel_failure id user_id w w' e h =
      elim (>>=-err (tx.run (Booking × Option Slot) (cancel_in_tx env id user_id)) _ w w' e h) [
        | inl p ↦ ground (arith, run-err tx t _ _ w w' e p, cache-cancel_in_tx env id user_id w)
        | inr (x, v, p, q) ↦ absurd (after_tx-ok x.1 x.0 v w' e q)
      ]
