-- ===== src/Repository/Slots/Batch.antt =====
-- `CreateSlots` of app/internal/repository/slot.go: all slots of the batch are saved, or none is.
use strike_reserve.Base.{
  ◌≡◌, refl, sym, ◌∙◌, ap, inl, inr, true, false, List, [], ◌∷◌, ◌++◌, append_assoc, append-nil,
  any, any-append, arith, Bool-cases, leb,
}
use strike_reserve.Errors.{Error}
use strike_reserve.Models.{Slot}
use strike_reserve.Db.{
  Db, Violation, Effect, done, violates, slots_clash, insert_slot, has_lane, check, unique,
  foreign_key,
}
use strike_reserve.World.{Env, World}
use strike_reserve.Exec.{Result, ok, err, query}
use strike_reserve.Repository.Slots.{insert_slots, create_slots}

abbrev pub with_slots : Db → List Slot → Db
with_slots db slots = record db { slots = db.slots ++ slots }

-- What can become of a batch.
pub data Outcome (slots : List Slot) (db : Db) (e : Effect (Unit {0})) : Type 0 where
  all : e ≡ done tt (with_slots db slots) → Outcome slots db e
  none : (v : Violation) → e ≡ violates v → Outcome slots db e

pub insert_slot-Outcome : (s : Slot) (db : Db) → Outcome (s ∷ []) db (insert_slot s db)
unfolding insert_slot
insert_slot-Outcome s db = elim (Bool-cases (leb s.end_time s.start_time)) [
  | inl k ↦ none check (rw k refl)
  | inr k ↦ elim (Bool-cases (any (λ r. slots_clash r s) db.slots)) [
    | inl l ↦ none unique (rw (k, l) refl)
    | inr l ↦ elim (Bool-cases (has_lane s.lane_id db)) [
      | inl m ↦ all (rw (k, l, m) refl)
      | inr m ↦ none foreign_key (rw (k, l, m) refl)
    ]
  ]
]

pub insert_slots-Outcome : (slots : List Slot) (db : Db) → Outcome slots db (insert_slots slots db)
unfolding insert_slots
insert_slots-Outcome [] db =
    all (ap (λ xs. done tt (record db { slots = xs })) (sym (append-nil db.slots)))
insert_slots-Outcome (s ∷ slots) db = elim (insert_slot-Outcome s db) [
  | none v e ↦ none v (rw e refl)
  | all e ↦ elim (insert_slots-Outcome slots (with_slots db (s ∷ []))) [
    | none v f ↦ none v (rw e f)
    | all f ↦ all (
        rw e (
          f ∙ ap (λ xs. done tt (record db { slots = xs })) (append_assoc db.slots (s ∷ []) slots)))
  ]
]

-- A slot of the batch is there already, by its identifier, or by its lane and start.
abbrev pub Repeats : List Slot → Db → Type 0
Repeats slots db = any (λ s. any (λ r. slots_clash r s) db.slots) slots ≡ true

Repeats-more :
    (slots : List Slot) (db : Db) (s : Slot)
    → Repeats slots db
    → Repeats slots (with_slots db (s ∷ []))
Repeats-more [] db s h = h
Repeats-more (r ∷ slots) db s h =
    ground (arith, Repeats-more slots db s, any-append (λ x. slots_clash x r) db.slots (s ∷ []))

pub insert_slot-done :
    (s : Slot) (db db' : Db)
    → insert_slot s db ≡ done tt db'
    → any (λ r. slots_clash r s) db.slots ≡ false
unfolding insert_slot
insert_slot-done s db db' h = ground arith

-- Then the whole batch is refused.
pub repeated_batch :
    (slots : List Slot) (db : Db)
    → Repeats slots db
    → (v : Violation) × (insert_slots slots db ≡ violates v)
unfolding insert_slots
repeated_batch [] db h = absurd (cc h)
repeated_batch (s ∷ slots) db h = elim (insert_slot-Outcome s db) [
  | none v e ↦ (v, rw e refl)
  | all e ↦
      let here = insert_slot-done s db _ e in
      let rest : Repeats slots db = ground arith in
      let (v, f) = repeated_batch slots (with_slots db (s ∷ [])) (Repeats-more slots db s rest) in
      (v, rw e f)
]

module _ {C : Type 0} (env : Env C) where
  -- What `CreateSlots` leaves in the tables: the whole batch, or nothing of it where it fails.
  pub create_slots-ok :
      (slots : List Slot) (w w' : World C)
      → create_slots env slots w ≡ (ok tt, w')
      → (w'.db ≡ with_slots w.db slots) × (w'.cache ≡ w.cache)
  unfolding create_slots query
  create_slots-ok [] w w' h = (
    ap (λ (x : Result (Unit {0}) × World C). x.1.db) (sym h)
        ∙ ap (λ xs. record w.db { slots = xs }) (sym (append-nil w.db.slots)),
    ap (λ (x : Result (Unit {0}) × World C). x.1.cache) (sym h),
  )
  create_slots-ok (s ∷ slots) w w' h = elim (insert_slots-Outcome (s ∷ slots) w.db) [
    | all e ↦ ground arith
    | none v e ↦ absurd (ground arith)
  ]

  pub create_slots-err :
      (slots : List Slot) (w w' : World C) (e : Error)
      → create_slots env slots w ≡ (err e, w')
      → w'.db ≡ w.db
  unfolding create_slots query
  create_slots-err [] w w' e h = absurd (cc h)
  create_slots-err (s ∷ slots) w w' e h = ground arith

  pub create_slots-repeated :
      (slots : List Slot) (w : World C)
      → Repeats slots w.db
      → (create_slots env slots w).1.db ≡ w.db
  unfolding create_slots query
  create_slots-repeated [] w h = refl
  create_slots-repeated (s ∷ slots) w h =
      let (v, e) = repeated_batch (s ∷ slots) w.db h in ground arith
