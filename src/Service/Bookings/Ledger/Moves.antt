-- ===== src/Service/Bookings/Ledger/Moves.antt =====
-- `Create` and `Cancel` of app/internal/service/booking.go against the ledger: what they do to the rows
-- is a reservation, a release, or nothing.
use strike_reserve.Base.{
  ℕ, ◌≡◌, refl, sym, ap, ◌∙◌, subst, List, [], ◌∷◌, ◌++◌, Option, none, some, false, ==_iff, ◌==◌,
  first-passes,
}
use strike_reserve.Models.{Booking, Slot, is_active}
use strike_reserve.Errors.{Error}
use strike_reserve.Db.{Db}
use strike_reserve.Db.Intact.{Intact}
use strike_reserve.World.{Env, World}
use strike_reserve.Exec.{Exec, Result, ok, err, TxManager, IsTransactional}
use strike_reserve.Service.Bookings
use strike_reserve.Service.Bookings.Create.{is_taken, Booked, create_success, create_failure}
use strike_reserve.Service.Bookings.Cancel.{
  Cancelled, Change, changed, kept, cancel_success, cancel_failure, cancelled_in,
}
use strike_reserve.Service.Bookings.Ledger.{
  assign, holder, holder_none, holder-append_one, holder-first, holder-cancelled,
}
use strike_reserve.Service.Integrity.{create-Intact, cancel-Intact}

pub data Operation : Type 0 where
  create : (user_id : ℕ) → (slot_id : ℕ) → Operation
  cancel : (booking_id : ℕ) → (user_id : ℕ) → Operation

-- What an operation may do to a ledger when it gives a result.
pub data Move (book : ℕ → Option ℕ) : Operation → Result Booking → (ℕ → Option ℕ) → Type 0 where
  reserve :
      (user_id slot_id : ℕ) (b : Booking) (after : ℕ → Option ℕ)
      → b.user_id ≡ user_id
      → b.slot_id ≡ slot_id
      → book slot_id ≡ none
      → after ≡ assign slot_id (some user_id) book
      → Move book (create user_id slot_id) (ok b) after
  release :
      (id user_id : ℕ) (b : Booking) (after : ℕ → Option ℕ)
      → b.id ≡ id
      → book b.slot_id ≡ some user_id
      → after ≡ assign b.slot_id none book
      → Move book (cancel id user_id) (ok b) after
  released_before :
      (id user_id : ℕ) (b : Booking) (after : ℕ → Option ℕ)
      → b.id ≡ id
      → b.user_id ≡ user_id
      → after ≡ book
      → Move book (cancel id user_id) (ok b) after
  refuse :
      (op : Operation) (e : Error) (after : ℕ → Option ℕ)
      → after ≡ book
      → Move book op (err e) after

pub data Moves
    : (ℕ → Option ℕ) → List Operation → List (Result Booking) → (ℕ → Option ℕ) → Type 0 where
  still : {book : ℕ → Option ℕ} → Moves book [] [] book
  then :
      {op : Operation} {ops : List Operation} {r : Result Booking} {rs : List (Result Booking)}
      {book next after : ℕ → Option ℕ}
      → Move book op r next
      → Moves next ops rs after
      → Moves book (op ∷ ops) (r ∷ rs) after

abbrev pub ledger : Db → ℕ → Option ℕ
ledger db = holder db.bookings

Move-Booked :
    (user_id slot_id : ℕ) (b : Booking) (s : Slot) (before after : Db)
    → Booked user_id slot_id b s before after
    → Move (ledger before) (create user_id slot_id) (ok b) (ledger after)
Move-Booked user_id slot_id b s before after k =
    reserve user_id slot_id b (ledger after) k.user k.slot
      (holder_none before.bookings slot_id k.was_free) (ap ledger k.added ∙ (λ i x. added x i))
  where
    added :
        (x : ℕ)
        → holder (before.bookings ++ b ∷ []) x ≡ assign slot_id (some user_id) (ledger before) x
    added x =
        holder-append_one before.bookings b x (ap is_active k.status)
          (subst (λ n. is_taken n before.bookings ≡ false) (sym k.slot) k.was_free)
        ∙ (λ i. assign (k.slot i) (some (k.user i)) (ledger before) x)

module _ {C : Type 0} (env : Env C) where
  module _ (id user_id : ℕ) (b row : Booking) (w w' : World C) (i : Intact w.db)
      (k : Cancelled env id user_id b row w w') where
    same_id : b.id ≡ id
    same_id =
        ap (λ (x : Booking). x.id) k.result
        ∙ (==_iff row.id id).0 (first-passes (λ c. c.id == id) w.db.bookings row k.found)

    same_slot : b.slot_id ≡ row.slot_id
    same_slot = ap (λ (x : Booking). x.slot_id) k.result

    same_user : b.user_id ≡ user_id
    same_user = ap (λ (x : Booking). x.user_id) k.result ∙ k.owner

    Move-Change :
        Change env id row w w' → Move (ledger w.db) (cancel id user_id) (ok b) (ledger w'.db)
    Move-Change (kept a d c) =
        released_before id user_id b (ledger w'.db) same_id same_user (ap ledger d)
    Move-Change (changed s a f d c) =
        release id user_id b (ledger w'.db) same_id
          (ap (ledger w.db) same_slot
            ∙ holder-first id row w.db.bookings i.bookings k.found a
            ∙ ap some k.owner)
          (ap ledger d ∙ (λ j x. freed x j))
      where
        freed : (x : ℕ) → ledger (cancelled_in id w.db) x ≡ assign b.slot_id none (ledger w.db) x
        freed x =
            holder-cancelled id row w.db.bookings x i.bookings k.found a
            ∙ (λ j. assign (sym same_slot j) none (ledger w.db) x)

module _ {C : Type 0} (env : Env C) (tx : TxManager C) (t : IsTransactional C tx) where
  -- The call of the service.
  abbrev pub call : Operation → Exec C Booking
  call (create user_id slot_id) = Bookings.create env tx user_id slot_id
  call (cancel id user_id) = Bookings.cancel env tx id user_id

  create-Move :
      (user_id slot_id : ℕ) (w w' : World C) (r : Result Booking)
      → Bookings.create env tx user_id slot_id w ≡ (r, w')
      → Move (ledger w.db) (create user_id slot_id) r (ledger w'.db)
  create-Move user_id slot_id w w' (ok b) h =
      let (s, k, c) = create_success env tx t user_id slot_id w w' b h in
      Move-Booked user_id slot_id b s w.db w'.db k
  create-Move user_id slot_id w w' (err e) h =
      refuse (create user_id slot_id) e (ledger w'.db)
        (ap ledger (create_failure env tx t user_id slot_id w w' e h).0)

  cancel-Move :
      (id user_id : ℕ) (w w' : World C) (r : Result Booking)
      → Intact w.db
      → Bookings.cancel env tx id user_id w ≡ (r, w')
      → Move (ledger w.db) (cancel id user_id) r (ledger w'.db)
  cancel-Move id user_id w w' (ok b) i h =
      let (row, k) = cancel_success env tx t id user_id w w' b h in
      Move-Change env id user_id b row w w' i k k.change
  cancel-Move id user_id w w' (err e) i h =
      refuse (cancel id user_id) e (ledger w'.db)
        (ap ledger (cancel_failure env tx t id user_id w w' e h).0)

  call-Move :
      (op : Operation) (w : World C)
      → Intact w.db
      → Move (ledger w.db) op (call op w).0 (ledger (call op w).1.db)
  call-Move (create user_id slot_id) w i = create-Move user_id slot_id w _ _ refl
  call-Move (cancel id user_id) w i = cancel-Move id user_id w _ _ i refl

  call-Intact : (op : Operation) (w : World C) → Intact w.db → Intact (call op w).1.db
  call-Intact (create user_id slot_id) w i = (create-Intact env tx t user_id slot_id).at w i
  call-Intact (cancel id user_id) w i = (cancel-Intact env tx t id user_id).at w i

  -- One call after another: the results, and the world.
  pub calls : List Operation → World C → List (Result Booking) × World C
  calls [] w = ([], w)
  calls (op ∷ ops) w = let (r, w') = call op w in let (rs, w'') = calls ops w' in (r ∷ rs, w'')

  -- Any calls of `Create` and `Cancel`, one after another on tables that are intact, move the
  -- ledger of who has which slot, operation by operation: a booking that is made gives a slot that
  -- nobody had to its user, one that is cancelled takes its slot from the user who had it, or was
  -- cancelled before and is the user's, and a call that fails leaves the ledger as it was.
  pub calls-Moves :
      (ops : List Operation) (w : World C)
      → Intact w.db
      → Moves (ledger w.db) ops (calls ops w).0 (ledger (calls ops w).1.db)
  unfolding calls
  calls-Moves [] w i = still
  calls-Moves (op ∷ ops) w i =
      then (call-Move op w i) (calls-Moves ops (call op w).1 (call-Intact op w i))
