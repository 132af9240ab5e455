-- ===== src/Service/Bookings/Verdict.antt =====
-- `BookingService.Create` against a description of its answers that knows nothing of statements,
-- transactions and SQL states.
use strike_reserve.Base.{
  ℕ, suc, String, ◌≡◌, refl, true, false, List, [], ◌∷◌, none, some, any, any-first, Option-cases,
  Bool-cases, inl, inr, arith, ◌==◌, if◌then◌else◌,
}
use strike_reserve.Models.{Booking, Slot, active, is_active}
use strike_reserve.Errors.{
  service, wrapped, foreign_key, slot_not_existing, slot_is_used, wrap_db_error,
}
use strike_reserve.Db.{Db, Violation, insert_booking, has_user, bookings_clash}
use strike_reserve.World.{Env, World}
use strike_reserve.Exec.{
  Result, ok, err, TxManager, IsTransactional, ◌>>=◌, on_error, query, at_tick, new_id,
}
use strike_reserve.Repository.Sql.{select_one}
use strike_reserve.Repository.Bookings
use strike_reserve.Repository.Slots
use strike_reserve.Service.Bookings.{create, create_in_tx, forget_slot}
use strike_reserve.Service.Bookings.Create.{is_taken, find_slot}

-- Why a slot cannot be had, or that it can.
pub data Verdict : Type 0 where
  no_such_slot taken unknown_user free : Verdict

pub verdict : ℕ → ℕ → Db → Verdict
verdict user_id slot_id db = elim (find_slot slot_id db) [
  | none ↦ no_such_slot
  | some s ↦
      if is_taken slot_id db.bookings
      then taken
      else if has_user user_id db
      then free
      else unknown_user
]

pub verdict-free :
    (user_id slot_id : ℕ) (db : Db) (s : Slot)
    → find_slot slot_id db ≡ some s
    → is_taken slot_id db.bookings ≡ false
    → has_user user_id db ≡ true
    → verdict user_id slot_id db ≡ free
unfolding verdict
verdict-free user_id slot_id db s e k u = ground arith

-- The answer for each verdict.
abbrev pub Answers : {A : Type 0} → String → Verdict → Result A → Type 0
Answers detail no_such_slot r = r ≡ err (service slot_not_existing)
Answers detail taken r = r ≡ err (service slot_is_used)
Answers detail unknown_user r = r ≡ err (wrapped foreign_key detail)
Answers {A} detail free r = (a : A) × (r ≡ ok a)

clash-is_taken :
    (b : Booking) (bookings : List Booking)
    → is_active b.status ≡ true
    → any (λ c. c.id == b.id) bookings ≡ false
    → any (λ c. bookings_clash c b) bookings ≡ is_taken b.slot_id bookings
clash-is_taken b [] a h = refl
clash-is_taken b (c ∷ bookings) a h = ground (arith, clash-is_taken b bookings)

module _ {C : Type 0} (env : Env C) where
  -- The two statements meet no failure of the driver, and the server's new identifier is new.
  pub record Calm (w : World C) : Type 0 where
    pub first_statement : env.fault w.ticks ≡ none
    pub second_statement : env.fault (suc (suc w.ticks)) ≡ none
    pub new : any (λ b. b.id == env.uuid (suc (suc w.ticks))) w.db.bookings ≡ false

  new_booking : ℕ → ℕ → World C → Booking
  new_booking user_id slot_id w = record {
    id = env.uuid (suc (suc w.ticks));
    user_id = user_id;
    slot_id = slot_id;
    status = active;
    created_at = env.now (suc (suc w.ticks));
  }

  module _ (user_id slot_id : ℕ) (w : World C) (c : Calm w) where
    in_tx-missing :
        find_slot slot_id w.db ≡ none
        → (create_in_tx env user_id slot_id w).0 ≡ err (service slot_not_existing)
    unfolding new_booking create_in_tx ◌>>=◌ on_error query at_tick new_id Slots.get_by_id
        Bookings.create select_one insert_booking wrap_db_error
    in_tx-missing h = ground arith

    in_tx-taken :
        (s : Slot)
        → find_slot slot_id w.db ≡ some s
        → is_taken slot_id w.db.bookings ≡ true
        → (create_in_tx env user_id slot_id w).0 ≡ err (service slot_is_used)
    unfolding new_booking create_in_tx ◌>>=◌ on_error query at_tick new_id Slots.get_by_id
        Bookings.create select_one insert_booking wrap_db_error
    in_tx-taken s h k = ground (arith, clash-is_taken (new_booking user_id slot_id w) w.db.bookings)

    in_tx-unknown_user :
        (s : Slot)
        → find_slot slot_id w.db ≡ some s
        → is_taken slot_id w.db.bookings ≡ false
        → has_user user_id w.db ≡ false
        → (create_in_tx env user_id slot_id w).0
          ≡ err (wrapped foreign_key (env.detail Violation.foreign_key))
    unfolding new_booking create_in_tx ◌>>=◌ on_error query at_tick new_id Slots.get_by_id
        Bookings.create select_one insert_booking wrap_db_error
    in_tx-unknown_user s h k u =
        ground (arith, clash-is_taken (new_booking user_id slot_id w) w.db.bookings)

    in_tx-free :
        (s : Slot)
        → find_slot slot_id w.db ≡ some s
        → is_taken slot_id w.db.bookings ≡ false
        → has_user user_id w.db ≡ true
        → (create_in_tx env user_id slot_id w).0 ≡ ok (new_booking user_id slot_id w, s)
    unfolding new_booking create_in_tx ◌>>=◌ on_error query at_tick new_id Slots.get_by_id
        Bookings.create select_one insert_booking wrap_db_error
    in_tx-free s h k u = ground (
      arith,
      clash-is_taken (new_booking user_id slot_id w) w.db.bookings,
      any-first (λ (r : Slot). r.id == slot_id) w.db.slots s,
    )

  in_tx-Answers :
      (user_id slot_id : ℕ) (w : World C)
      → Calm w
      → Answers
          (env.detail Violation.foreign_key)
          (verdict user_id slot_id w.db)
          (create_in_tx env user_id slot_id w).0
  unfolding verdict
  in_tx-Answers user_id slot_id w c = elim (Option-cases (find_slot slot_id w.db)) [
    | inl e ↦ rw (e, verdict) (in_tx-missing user_id slot_id w c e)
    | inr (s, e) ↦ elim (Bool-cases (is_taken slot_id w.db.bookings)) [
      | inl k ↦ rw (e, k, verdict) (in_tx-taken user_id slot_id w c s e k)
      | inr k ↦ elim (Bool-cases (has_user user_id w.db)) [
        | inl u ↦
            rw (e, k, u, verdict)
              ((new_booking user_id slot_id w, s), in_tx-free user_id slot_id w c s e k u)
        | inr u ↦ rw (e, k, u, verdict) (in_tx-unknown_user user_id slot_id w c s e k u)
      ]
    ]
  ]

module _ {C : Type 0} (env : Env C) (tx : TxManager C) (t : IsTransactional C tx) where
  create-in_tx :
      (user_id slot_id : ℕ) (w : World C)
      → ((v : World C) (x : Booking × Slot)
          → create_in_tx env user_id slot_id w ≡ (ok x, v)
          → tx.run (Booking × Slot) (create_in_tx env user_id slot_id) w ≡ (ok x, v))
      → (detail : String) (v : Verdict) (r : Result (Booking × Slot)) (w' : World C)
      → create_in_tx env user_id slot_id w ≡ (r, w')
      → Answers detail v r
      → Answers detail v (create env tx user_id slot_id w).0
  unfolding create ◌>>=◌ forget_slot
  create-in_tx user_id slot_id w sure detail no_such_slot r w' q h = ground (
    arith,
    t.aborts (Booking × Slot) (create_in_tx env user_id slot_id) w w' (service slot_not_existing),
  )
  create-in_tx user_id slot_id w sure detail taken r w' q h = ground (
    arith,
    t.aborts (Booking × Slot) (create_in_tx env user_id slot_id) w w' (service slot_is_used),
  )
  create-in_tx user_id slot_id w sure detail unknown_user r w' q h = ground (
    arith,
    t.aborts (Booking × Slot) (create_in_tx env user_id slot_id) w w' (wrapped foreign_key detail),
  )
  create-in_tx user_id slot_id w sure detail free r w' q (x, h) = (x.0, ground (arith, sure w' x))

  -- Where the driver does its work, the new identifier is new and a transaction that succeeds is
  -- committed, `Create` answers by the verdict: an unknown slot is "slot not existing", a slot with
  -- an active booking "slot is used", an unknown user the server's foreign key error, and in every
  -- other case there is a booking.
  pub create-Answers :
      (user_id slot_id : ℕ) (w : World C)
      → Calm env w
      → ((v : World C) (x : Booking × Slot)
          → create_in_tx env user_id slot_id w ≡ (ok x, v)
          → tx.run (Booking × Slot) (create_in_tx env user_id slot_id) w ≡ (ok x, v))
      → Answers
          (env.detail Violation.foreign_key)
          (verdict user_id slot_id w.db)
          (create env tx user_id slot_id w).0
  create-Answers user_id slot_id w c sure =
      create-in_tx user_id slot_id w sure _ (verdict user_id slot_id w.db)
        (create_in_tx env user_id slot_id w).0 (create_in_tx env user_id slot_id w).1 refl
        (in_tx-Answers env user_id slot_id w c)
